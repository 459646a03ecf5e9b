-- ===== src/Buffer/Append.antt =====
-- `Append( const char*, std::size_t )` of buffer.cpp: the bytes come behind those shown before.
use redisproxy.Base.{
  ℕ, ◌+◌, ◌-◌, ◌^◌, ◌≤◌, ◌<◌, ◌≡◌, ◌∙◌, ap, sym, refl, none, some, Option, true, false, Bytes, [],
  ◌∷◌, ◌++◌, append-nil, length, take, drop, arith, le→ltb, lt→ltb, ◌==◌, if◌then◌else◌,
}
use native.Mathlib.Decide.{dec_le}
use redisproxy.Error.{Error, ok, exhausted}
use redisproxy.Mem.{M, Heap, Block, Ptr, Malloc, ◌>>=◌, ◌>>◌, pure, copy_to}
use redisproxy.Mem.Laws.{Answers, copy_to_at, length-splice}
use redisproxy.Buffer.{Buffer, add64, append_capacity, append_size, append_bytes}
use redisproxy.Buffer.Window.{IsLive, window}
use redisproxy.Buffer.Grow.{Same, capacity_at, append_size_at, tail_heap, tail-IsLive, tail_Same}
use redisproxy.Buffer.Capacity.{moves, append_capacity-MakesRoom, append_capacity-exhausted}

-- A call that appends `src`: it returns OK and a buffer that shows `src` behind the old bytes.
abbrev pub Appends : Heap → Buffer → Block → Bytes → Option ((Error × Buffer) × Heap) → Type 0
Appends h b k src r =
    (b' : Buffer) × (h' : Heap) × (k' : Block) × (r ≡ some ((ok, b'), h')) × Same h b k h' b' k' src

-- What `append_bytes` does once there is room.
abbrev finish : Bytes → Buffer → M (Error × Buffer)
finish src b = do
  if length src == 0 then pure tt else copy_to b.data' b.size_ src
  append_size b (length src)

module _ {h : Heap} {b : Buffer} {k : Block} (v : IsLive h b k) where
  finish_at :
      (x : ℕ) (xs : Bytes)
      → b.size_ + length (x ∷ xs) ≤ length k.bytes
      → finish (x ∷ xs) b h
        ≡ some ((ok, record b { size_ = b.size_ + length (x ∷ xs) }), tail_heap v (x ∷ xs))
  finish_at x xs fits =
      let src = x ∷ xs in
      let t : (length src == 0) ≡ false = ground arith in
      let live = tail-IsLive v src fits in
      rw (t, copy_to_at h b.data' k b.size_ src v.at fits, ◌>>=◌)
        (append_size_at v (length src) live (omega (arith, length-splice k.bytes b.size_ src fits)))

  Same-trans :
      (src : Bytes) (h' h'' : Heap) (b' b'' : Buffer) (k' k'' : Block)
      → Same h b k h' b' k' []
      → b''.data' ≡ b'.data'
      → Same h' b' k' h'' b'' k'' src
      → Same h b k h'' b'' k'' src
  Same-trans src h' h'' b' b'' k' k'' s e t = record {
    live = t.live;
    shows = t.shows ∙ ap (λ w. w ++ src) (s.shows ∙ append-nil (window k b));
    frame = λ c ne ne'. t.frame c (λ q. ne' (q ∙ sym e)) ne' ∙ s.frame c ne (λ q. ne' (q ∙ sym e));
  }

  module _ (src : Bytes) (small : length src + b.size_ + 4 < 2 ^ 32) where
    fits_step :
        (m : Malloc)
        → length src + b.size_ ≤ length k.bytes
        → append_bytes m b src h ≡ finish src b h
    unfolding append_bytes
    fits_step m f =
        let e : add64 (length src) b.size_ ≡ length src + b.size_ = omega arith in
        rw (capacity_at v, ◌>>=◌, e, le→ltb (length k.bytes) (length src + b.size_) f) refl

    grow_step :
        (m : Malloc) {b' : Buffer} {h' : Heap}
        → length k.bytes < length src + b.size_
        → append_capacity m b (length src) h ≡ some ((ok, b'), h')
        → append_bytes m b src h ≡ finish src b' h'
    unfolding append_bytes
    grow_step m f grown =
        let e : add64 (length src) b.size_ ≡ length src + b.size_ = omega arith in
        rw (capacity_at v, ◌>>=◌, e, lt→ltb (length k.bytes) (length src + b.size_) f, grown, ◌>>=◌)
          refl

    -- Where no memory is to be had and a new block is needed, `Append` returns `Exhausted`, and
    -- neither the buffer nor the heap has changed.
    pub append_bytes-exhausted :
        length k.bytes < length src + b.size_
        → moves v (length src) small ≡ false
        → append_bytes none b src h ≡ some ((exhausted, b), h)
    unfolding append_bytes
    append_bytes-exhausted f t =
        let e : add64 (length src) b.size_ ≡ length src + b.size_ = omega arith in
        rw
          (
            capacity_at v,
            ◌>>=◌,
            e,
            lt→ltb (length k.bytes) (length src + b.size_) f,
            append_capacity-exhausted v (length src) small f t,
            ◌>>=◌,
          )
          refl

-- `Append` of a byte string succeeds where `malloc` has memory (or none is needed), unless the
-- window would be moved onto itself: the buffer then shows `src` behind the bytes that it showed,
-- and no block but its own, old and new, has changed.
pub append_bytes-Appends :
    (h : Heap) (b : Buffer) (k : Block) (v : IsLive h b k) (src : Bytes)
    (small : length src + b.size_ + 4 < 2 ^ 32) (p : Ptr) (found : Bytes)
    → Answers h (length src + b.size_ - b.offset_) p found
    → (moves v (length src) small ≡ true → b.size_ - b.offset_ ≤ b.offset_)
    → Appends h b k src (append_bytes (some (p, found)) b src h)
append_bytes-Appends h b k v [] small p found a apart = (
  record b { size_ = b.size_ + 0 },
  h,
  k,
  fits_step v [] small _ (omega (arith, v)) ∙ append_size_at v 0 v (omega (arith, v)),
  record {
    live = record {
      ne_null = v.ne_null;
      at = v.at;
      block = v.block;
      offset_le = omega (arith, v);
      size_le = omega (arith, v);
    };
    shows =
        ap (λ n. drop b.offset_ (take n k.bytes)) (let e : b.size_ + 0 ≡ b.size_ = omega arith in e)
        ∙ sym (append-nil (window k b));
    frame = λ c _ _. refl;
  },
)
append_bytes-Appends h b k v (x ∷ xs) small p found a apart =
    elim (dec_le (length (x ∷ xs) + b.size_) (length k.bytes)) [
      | yes f ↦ (
        _,
        _,
        _,
        fits_step v (x ∷ xs) small _ f ∙ finish_at v x xs (omega arith),
        tail_Same v (x ∷ xs) (omega arith),
      )
      | no f ↦
          let (b', h', k', e, s, room) =
            append_capacity-MakesRoom v (length (x ∷ xs)) small p found a apart in
          (
            _,
            _,
            _,
            grow_step v (x ∷ xs) small _ (omega arith) e ∙ finish_at s.live x xs room.fits,
            Same-trans v (x ∷ xs) h' _ b' _ k' _ s refl (tail_Same s.live (x ∷ xs) room.fits),
          )
    ]
