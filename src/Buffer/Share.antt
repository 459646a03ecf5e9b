-- ===== src/Buffer/Share.antt =====
-- `Append( const Buffer&, std::size_t )` and `Clear` of buffer.cpp: buffers that share a block.
use redisproxy.Base.{
  ℕ, ◌+◌, ◌-◌, ◌%◌, ◌^◌, ◌≤◌, ◌<◌, ◌≡◌, ◌≢◌, ◌∙◌, ap, sym, refl, some, true, false, Bytes, [],
  length, take, drop, arith, ltb, le→ltb, lt→ltb, ◌==◌, if◌then◌else◌, take-drop, take-take-min,
}
use Prim.Native.Nat.{min}
use redisproxy.Error.{ok, out_of_bound}
use redisproxy.Mem.{Heap, Block, Ptr, Malloc, ◌>>=◌, write}
use redisproxy.Mem.Laws.{Answers, incr_ref_at}
use redisproxy.Buffer.{Buffer, fresh, add64, size, append, append_first, append_bytes}
use redisproxy.Buffer.View
use redisproxy.Buffer.Window.{IsLive, window, length-window}
use redisproxy.Buffer.Grow.{size_at, read_at_at}
use redisproxy.Buffer.Capacity.{moves}
use redisproxy.Buffer.Append.{append_bytes-Appends}

-- How many bytes `Append( other, n )` takes: 0 stands for all.
abbrev wanted : Bytes → ℕ → ℕ
wanted xs n = if n == 0 then length xs else n

module _ {h : Heap} {c : Buffer} {k : Block} (v : IsLive h c k) (small : c.size_ < 2 ^ 32)
    (n : ℕ) where
  size_window : size c ≡ length (window k c)
  size_window = size_at v (omega arith) ∙ sym (length-window v)

  asks : (if n == 0 then size c else n) ≡ wanted (window k c) n
  asks = ap (λ s. if n == 0 then s else n) size_window

  -- The first `wanted` bytes of a window.
  prefix_window :
      (w : ℕ)
      → w ≤ length (window k c)
      → drop c.offset_ (take (c.offset_ + w) k.bytes) ≡ take w (window k c)
  prefix_window w le =
      let m : min (c.offset_ + w) c.size_ ≡ c.offset_ + w = omega (arith, length-window v, v) in
      ap (λ s. drop c.offset_ (take s k.bytes)) (sym m)
      ∙ ap (drop c.offset_) (sym (take-take-min (c.offset_ + w) c.size_ k.bytes))
      ∙ sym (take-drop w c.offset_ (take c.size_ k.bytes))

  -- A request for more than the other buffer shows is refused, and nothing changes.
  pub append-out_of_bound :
      (m : Malloc) (b : Buffer)
      → length (window k c) < n
      → append m b c n h ≡ some ((out_of_bound, b), h)
  unfolding append
  append-out_of_bound m b more =
      let z : (n == 0) ≡ false = ground arith in
      let t : ltb (size c) n ≡ true = lt→ltb (size c) n (omega (arith, size_window)) in
      rw (z, t) refl

  -- The buffer that `Append` makes of an empty one without a block: it shares the block of the other.
  abbrev pub shared : Buffer
  shared = record {
    data' = c.data';
    size_ = c.offset_ + wanted (window k c) n;
    offset_ = c.offset_;
  }

  -- `Append` to a buffer without a block copies nothing: the result shares the other's block, whose
  -- count goes up by one, and shows what the view of `Append` says.
  pub append-shares :
      (m : Malloc)
      → n ≤ length (window k c)
      → (append m fresh c n h
          ≡ some
              ((ok, shared), write h c.data' (some (record k { count = (k.count + 1) % 2 ^ 32 }))))
        × (View.append [] (window k c) n ≡ (ok, window k shared))
  unfolding append View.append
  append-shares m le =
      let w = window k c in
      let bound : wanted w n ≤ length w = ground arith in
      let e : add64 c.offset_ (wanted w n) ≡ c.offset_ + wanted w n =
        omega (arith, length-window v, bound, v) in
      let t = le→ltb (length w) (wanted w n) bound in
      (
        ap (λ q. append_first m fresh c q h) asks
            ∙ (rw (size_window, t, incr_ref_at h c.data' k v.at, ◌>>=◌, e) refl),
        rw t (ap (λ (xs : Bytes). (ok, xs)) (sym (prefix_window (wanted w n) bound))),
      )

  -- `Append` to a buffer on another block copies the bytes, and so is `Append` of their string.
  append-bytes_at :
      (m : Malloc) (b : Buffer)
      → n ≤ length (window k c)
      → b.data' ≢ 0
      → b.data' ≢ c.data'
      → append m b c n h ≡ append_bytes m b (take (wanted (window k c) n) (window k c)) h
  unfolding append
  append-bytes_at m b le ne apart =
      let w = window k c in
      let bound : wanted w n ≤ length w = ground arith in
      let t = le→ltb (length w) (wanted w n) bound in
      let z : (b.data' == 0) ≡ false = ground (arith, ne) in
      let y : (b.data' == c.data') ≡ false = ground (arith, apart) in
      let r =
        read_at_at h c.data' k c.offset_ (wanted w n) v.at
          (omega (arith, length-window v, bound, v)) in
      ap (λ q. append_first m b c q h) asks
      ∙ (rw (size_window, t, z, y, r, ◌>>=◌)
          (ap (λ src. append_bytes m b src h)
            (take-drop (wanted w n) c.offset_ k.bytes ∙ prefix_window (wanted w n) bound)))

-- `Append` of the first `n` bytes (of all, at 0) of a live buffer to one on another block is
-- `Append` of the byte string that the view of `Append` adds: it succeeds under the same conditions
-- and shows the same bytes.
pub append-copies :
    (h : Heap) (b c : Buffer) (j k : Block) (u : IsLive h b j) (v : IsLive h c k) (n : ℕ)
    (small : length (take (wanted (window k c) n) (window k c)) + b.size_ + 4 < 2 ^ 32) (p : Ptr)
    (found : Bytes)
    → c.size_ < 2 ^ 32
    → n ≤ length (window k c)
    → b.data' ≢ c.data'
    → Answers h (length (take (wanted (window k c) n) (window k c)) + b.size_ - b.offset_) p found
    → (moves u (length (take (wanted (window k c) n) (window k c))) small ≡ true
        → b.size_ - b.offset_ ≤ b.offset_)
    → (b' : Buffer) × (h' : Heap) × (k' : Block) × (append (some (p, found)) b c n h
        ≡ some ((ok, b'), h'))
      × IsLive h' b' k'
      × (View.append (window j b) (window k c) n ≡ (ok, window k' b'))
unfolding View.append
append-copies h b c j k u v n small p found cs le ne a apart =
    let w = window k c in
    let bound : wanted w n ≤ length w = ground arith in
    let t = le→ltb (length w) (wanted w n) bound in
    let (b', h', k', e, s) =
      append_bytes-Appends h b j u (take (wanted w n) w) small p found a apart in
    (
      b',
      h',
      k',
      append-bytes_at v cs n (some (p, found)) b le u.ne_null ne ∙ e,
      s.live,
      rw t (ap (λ (xs : Bytes). (ok, xs)) (sym s.shows)),
    )
