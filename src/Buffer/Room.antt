-- ===== src/Buffer/Room.antt =====
-- `AppendCapacity` of buffer.cpp: the room that it makes, and what it leaves alone.
use redisproxy.Base.{
  ℕ, ◌+◌, ◌-◌, ◌%◌, ◌^◌, ◌≤◌, ◌<◌, ◌≡◌, ◌≢◌, ◌∙◌, sym, refl, none, some, Option, Bytes, [],
  append-nil, length, arith, false, ltb, ◌==◌, if◌then◌else◌, not, ◌&&◌,
}
use redisproxy.Error.{ok}
use redisproxy.Mem.{Heap, Block, Ptr, write, splice, ◌>>=◌}
use redisproxy.Mem.Laws.{desc_ref_at, copy_to_at, length-splice, Answers}
use redisproxy.Buffer.{Buffer, sub64, size, compact, relocate}
use redisproxy.Buffer.Window.{IsLive, window, length-window}
use redisproxy.Buffer.Grow.{Same, read_window, size_at, moved_window}

-- The buffer starts at the front of its block, and the block has room for `n` more bytes.
pub record HasRoom (n : ℕ) (b' : Buffer) (k' : Block) : Type 0 where
  pub small : b'.size_ + n < 2 ^ 32
  pub fits : b'.size_ + n ≤ length k'.bytes

module _ {h : Heap} {b : Buffer} {k : Block} (v : IsLive h b k) where
  abbrev pub front : Ptr → Buffer
  front p = record { data' = p; size_ = b.size_ - b.offset_; offset_ = 0 }

  abbrev pub compacted : Block
  compacted = record k { bytes = splice k.bytes 0 (window k b) }

  pub compact_at :
      b.size_ < 2 ^ 32
      → b.size_ - b.offset_ ≤ b.offset_
      → compact b h ≡ some ((ok, front b.data'), write h b.data' (some compacted))
  unfolding compact
  compact_at small apart =
      let e = size_at v (omega arith) in
      let t : (ltb b.offset_ (size b) && not (b.offset_ == 0)) ≡ false = ground (arith, e) in
      let l = length-window v in
      rw
        (
          t,
          read_window v (omega arith),
          ◌>>=◌,
          copy_to_at h b.data' k 0 (window k b) v.at (omega (arith, l, v)),
          ◌>>=◌,
          e,
        )
        refl

  pub compact_Same :
      b.size_ - b.offset_ ≤ b.offset_
      → Same h b k (write h b.data' (some compacted)) (front b.data') compacted []
  compact_Same apart =
      let l = length-window v in
      let s = length-splice k.bytes 0 (window k b) (omega (arith, l, v)) in
      record {
        live = record {
          ne_null = v.ne_null;
          at = ground arith;
          block = record {
            sized = omega (arith, s, v.block.sized);
            size_lt = v.block.size_lt;
            counted = v.block.counted;
            count_lt = v.block.count_lt;
          };
          offset_le = omega arith;
          size_le = omega (arith, s, v);
        };
        shows = moved_window v k.bytes ∙ sym (append-nil (window k b));
        frame = λ c ne _. ground arith;
      }

  -- The block of a relocated window.
  module _ (need : ℕ) (p : Ptr) (found : Bytes) (a : Answers h (need - b.offset_) p found)
      (enough : b.size_ ≤ need) (small : need + 4 < 2 ^ 32) where
    abbrev pub born : Block
    born = record { size = (need - b.offset_ + 4) % 2 ^ 32; count = 1; bytes = found }

    abbrev pub filled : Block
    filled = record born { bytes = splice found 0 (window k b) }

    abbrev pub released : Option Block
    released =
        if (k.count + 2 ^ 32 - 1) % 2 ^ 32 == 0
        then none
        else some (record k { count = (k.count + 2 ^ 32 - 1) % 2 ^ 32 })

    abbrev pub relocated : Heap
    relocated = write (write (write h p (some born)) p (some filled)) b.data' released

    apart : p ≢ b.data'
    apart = ground (arith, a.new, v.at)

    still-IsLive : IsLive (write h p (some born)) b k
    still-IsLive = record {
      ne_null = v.ne_null;
      at = ground (arith, apart, v.at);
      block = v.block;
      offset_le = v.offset_le;
      size_le = v.size_le;
    }

    pub relocate_at : relocate (some (p, found)) b need h ≡ some ((ok, front p), relocated)
    unfolding relocate
    relocate_at =
        let h1 : Heap = write h p (some born) in
        let h2 : Heap = write h1 p (some filled) in
        let at1 : h1 p ≡ some born = ground arith in
        let at2 : h2 b.data' ≡ some k = ground (arith, apart, v.at) in
        let e = size_at v (omega arith) in
        let n : sub64 need b.offset_ % 2 ^ 32 ≡ need - b.offset_ = omega (arith, v) in
        let t : (p == 0) ≡ false = ground (arith, a.ne_null) in
        let l = length-window v in
        rw
          (
            n,
            t,
            read_window still-IsLive (omega arith),
            ◌>>=◌,
            copy_to_at h1 p born 0 (window k b) at1 (omega (arith, l, a.enough, v)),
            ◌>>=◌,
            desc_ref_at h2 b.data' k at2,
            ◌>>=◌,
            e,
          )
          refl

    pub relocate_Same : Same h b k relocated (front p) filled []
    relocate_Same =
        let l = length-window v in
        let s = length-splice found 0 (window k b) (omega (arith, l, a.enough, v)) in
        record {
          live = record {
            ne_null = a.ne_null;
            at = ground (arith, apart);
            block = record {
              sized = omega (arith, s, a.enough);
              size_lt = omega arith;
              counted = omega arith;
              count_lt = omega arith;
            };
            offset_le = omega arith;
            size_le = omega (arith, s, a.enough, v);
          };
          shows = moved_window v found ∙ sym (append-nil (window k b));
          frame = λ c ne ne'. ground arith;
        }
