-- ===== src/Buffer/Grow.antt =====
-- The steps of `AppendCapacity`, `AppendSize` and `Append( const char*, std::size_t )` of buffer.cpp.
use redisproxy.Base.{
  ℕ, ◌+◌, ◌-◌, ◌^◌, ◌≤◌, ◌<◌, ◌≡◌, ◌≢◌, ◌∙◌, sym, ap, some, Bytes, ◌++◌, length, take, drop, arith,
  false, length-take, take-append, take_across, drop_within, take-drop, ◌==◌, le→ltb,
}
use redisproxy.Error.{ok}
use redisproxy.Mem.{Heap, Block, Ptr, write, splice, ◌>>=◌}
use redisproxy.Mem.Laws.{get_ref_size_at, length-splice}
use redisproxy.Buffer.{Buffer, add64, size, capacity, read_at, append_size}
use redisproxy.Buffer.Window.{IsLive, window, length-window}

pub capacity_at :
    {h : Heap} {b : Buffer} {k : Block} → IsLive h b k → capacity b h ≡ some (length k.bytes, h)
unfolding capacity
capacity_at {h} {b} {k} v =
    let t : (b.data' == 0) ≡ false = ground (arith, v.ne_null) in
    rw t (get_ref_size_at h b.data' k v.at v.block)

pub read_at_at :
    (h : Heap) (p : Ptr) (k : Block) (i n : ℕ)
    → h p ≡ some k
    → i + n ≤ length k.bytes
    → read_at p i n h ≡ some (take n (drop i k.bytes), h)
unfolding read_at
read_at_at h p k i n at fits = rw (at, ◌>>=◌, le→ltb (length k.bytes) (i + n) fits)

-- The bytes that `Data()` and `Size()` give are the window.
pub read_window :
    {h : Heap} {b : Buffer} {k : Block}
    → IsLive h b k
    → b.size_ < 2 ^ 64
    → read_at b.data' b.offset_ (size b) h ≡ some (window k b, h)
read_window {h} {b} {k} v small =
    let e : size b ≡ b.size_ - b.offset_ = omega (arith, v) in
    let s : b.offset_ + (b.size_ - b.offset_) ≡ b.size_ = omega (arith, v) in
    rw e (
      read_at_at h b.data' k b.offset_ (b.size_ - b.offset_) v.at (omega (arith, v))
      ∙ ap (λ w. some (w, h))
          (take-drop (b.size_ - b.offset_) b.offset_ k.bytes
            ∙ ap (λ n. drop b.offset_ (take n k.bytes)) s))

-- The outcome of making room: the buffer `b'` on the block `k'` shows what `b` showed on `k`, and
-- only the blocks of the two have changed.
pub record Same (h : Heap) (b : Buffer) (k : Block) (h' : Heap) (b' : Buffer) (k' : Block)
    (src : Bytes) : Type 0 where
  pub live : IsLive h' b' k'
  pub shows : window k' b' ≡ window k b ++ src
  pub frame : (c : Ptr) → c ≢ b.data' → c ≢ b'.data' → h' c ≡ h c

module _ {h : Heap} {b : Buffer} {k : Block} (v : IsLive h b k) where
  pub tail_window :
      (src : Bytes)
      → drop b.offset_ (take (b.size_ + length src) (splice k.bytes b.size_ src))
        ≡ window k b ++ src
  tail_window src =
      let pre = take b.size_ k.bytes in
      let e : length pre ≡ b.size_ = omega (arith, length-take b.size_ k.bytes, v) in
      ap (λ n. drop b.offset_ (take (n + length src) (splice k.bytes b.size_ src))) (sym e)
      ∙ ap (drop b.offset_)
          (take_across (length src) pre (src ++ drop (b.size_ + length src) k.bytes))
      ∙ ap (λ w. drop b.offset_ (pre ++ w)) (take-append src (drop (b.size_ + length src) k.bytes))
      ∙ drop_within b.offset_ pre src (omega (arith, v))

  pub size_at : b.size_ < 2 ^ 64 → size b ≡ b.size_ - b.offset_
  size_at small = omega (arith, v)

  pub append_size_at :
      (n : ℕ) {h' : Heap} {k' : Block}
      → IsLive h' b k'
      → b.size_ + n ≤ length k'.bytes
      → append_size b n h' ≡ some ((ok, record b { size_ = b.size_ + n }), h')
  unfolding append_size
  append_size_at n {h'} {k'} v' fits =
      let e : add64 b.size_ n ≡ b.size_ + n = omega (arith, v') in
      rw (capacity_at v', ◌>>=◌, e, le→ltb (length k'.bytes) (b.size_ + n) fits)

  -- `memcpy` to the tail, where there is room, and `AppendSize`.
  abbrev pub tail_heap : Bytes → Heap
  tail_heap src = write h b.data' (some (record k { bytes = splice k.bytes b.size_ src }))

  pub tail-IsLive :
      (src : Bytes)
      → b.size_ + length src ≤ length k.bytes
      → IsLive (tail_heap src) b (record k { bytes = splice k.bytes b.size_ src })
  tail-IsLive src fits =
      let l = length-splice k.bytes b.size_ src fits in
      record {
        ne_null = v.ne_null;
        at = ground arith;
        block = record {
          sized = omega (arith, l, v.block.sized);
          size_lt = v.block.size_lt;
          counted = v.block.counted;
          count_lt = v.block.count_lt;
        };
        offset_le = v.offset_le;
        size_le = omega (arith, l, v.size_le);
      }

  pub tail_Same :
      (src : Bytes)
      → b.size_ + length src ≤ length k.bytes
      → Same h b k
          (tail_heap src)
          (record b { size_ = b.size_ + length src })
          (record k { bytes = splice k.bytes b.size_ src })
          src
  tail_Same src fits =
      let l = length-splice k.bytes b.size_ src fits in
      let t = tail-IsLive src fits in
      record {
        live = record {
          ne_null = v.ne_null;
          at = t.at;
          block = t.block;
          offset_le = omega (arith, v);
          size_le = omega (arith, l);
        };
        shows = tail_window src;
        frame = λ c ne _. ground arith;
      }

  -- The window on the bytes of a block that starts with it.
  pub moved_window :
      (bytes : Bytes) → take (b.size_ - b.offset_) (splice bytes 0 (window k b)) ≡ window k b
  moved_window bytes =
      ap (λ n. take n (window k b ++ drop (0 + length (window k b)) bytes)) (sym (length-window v))
      ∙ take-append (window k b) (drop (0 + length (window k b)) bytes)
