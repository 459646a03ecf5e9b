-- ===== src/Buffer/Capacity.antt =====
-- `AppendCapacity` of buffer.cpp: it makes room, and shows the same bytes.
use redisproxy.Base.{
  Bool, ℕ, ◌+◌, ◌-◌, ◌^◌, ◌≤◌, ◌<◌, ◌≡◌, ◌∙◌, inl, inr, sym, refl, none, some, Bytes, [],
  append-nil, length, arith, true, false, leb, ◌==◌, le→leb, lt→leb, ◌&&◌, Bool-cases,
  if◌then◌else◌, Option,
}
use native.Mathlib.Decide.{dec_le}
use redisproxy.Error.{Error, ok, exhausted}
use redisproxy.Mem.{Heap, Block, Ptr, Malloc, splice, ◌>>=◌}
use redisproxy.Mem.Laws.{get_ref_count_at, length-splice, Answers}
use redisproxy.Buffer.{Buffer, add64, compact, append_capacity, relocate}
use redisproxy.Buffer.Window.{IsLive, window, length-window}
use redisproxy.Buffer.Grow.{Same, capacity_at}
use redisproxy.Buffer.Room.{
  HasRoom, front, compacted, filled, compact_at, compact_Same, relocate_at, relocate_Same,
}

-- A call that makes room for `n` bytes: it returns OK and a buffer that shows the same bytes.
abbrev pub MakesRoom : Heap → Buffer → Block → ℕ → Option ((Error × Buffer) × Heap) → Type 0
MakesRoom h b k n r =
    (b' : Buffer) × (h' : Heap) × (k' : Block) × (r ≡ some ((ok, b'), h'))
    × Same h b k h' b' k' []
    × HasRoom n b' k'

module _ {h : Heap} {b : Buffer} {k : Block} (v : IsLive h b k) (n : ℕ)
    (small : n + b.size_ + 4 < 2 ^ 32) where
  -- The request fits behind the window, or what lies before the window is enough.
  abbrev pub Fits : Type 0
  Fits = n + b.size_ ≤ length k.bytes

  -- The condition on which the window is moved within its block.
  abbrev pub moves : Bool
  moves = k.count == 1 && leb (n + b.size_ - length k.bytes) b.offset_

  fits_at : (m : Malloc) → Fits → append_capacity m b n h ≡ some ((ok, b), h)
  unfolding append_capacity
  fits_at m f =
      let e : add64 n b.size_ ≡ n + b.size_ = omega arith in
      rw (capacity_at v, ◌>>=◌, e, le→leb (n + b.size_) (length k.bytes) f) refl

  grows_at :
      (m : Malloc)
      → length k.bytes < n + b.size_
      → append_capacity m b n h ≡ (if moves then compact b else relocate m b (n + b.size_)) h
  unfolding append_capacity
  grows_at m f =
      let e : add64 n b.size_ ≡ n + b.size_ = omega arith in
      let t : (b.data' == 0) ≡ false = ground (arith, v.ne_null) in
      rw
        (
          capacity_at v,
          ◌>>=◌,
          e,
          lt→leb (n + b.size_) (length k.bytes) f,
          t,
          get_ref_count_at h b.data' k v.at,
          ◌>>=◌,
        )
        (rw e)

  compact_room : moves ≡ true → HasRoom n (front v b.data') (compacted v)
  compact_room t =
      let le : n + b.size_ - length k.bytes ≤ b.offset_ = ground arith in
      let s = length-splice k.bytes 0 (window k b) (omega (arith, length-window v, v)) in
      record { small = omega arith; fits = omega (arith, s, v) }

  relocate_room :
      (p : Ptr) (found : Bytes)
      → Answers h (n + b.size_ - b.offset_) p found
      → n + (b.size_ - b.offset_) ≤ length (splice found 0 (window k b))
  relocate_room p found a =
      let s = length-splice found 0 (window k b) (omega (arith, length-window v, a.enough, v)) in
      omega (arith, s, a.enough, v)

  -- `AppendCapacity( n )` succeeds where `malloc` has memory (or none is needed): afterwards `n`
  -- more bytes fit behind the window, the buffer shows the same bytes, and no other block has
  -- changed. The premise on the move within the block is that the window does not overlap the
  -- place that it is moved to.
  pub append_capacity-MakesRoom :
      (p : Ptr) (found : Bytes)
      → Answers h (n + b.size_ - b.offset_) p found
      → (moves ≡ true → b.size_ - b.offset_ ≤ b.offset_)
      → MakesRoom h b k n (append_capacity (some (p, found)) b n h)
  append_capacity-MakesRoom p found a apart = elim (dec_le (n + b.size_) (length k.bytes)) [
    | yes f ↦ (
      b,
      h,
      k,
      fits_at (some (p, found)) f,
      record { live = v; shows = sym (append-nil (window k b)); frame = λ c _ _. refl },
      record { small = omega arith; fits = omega arith },
    )
    | no f ↦ elim (Bool-cases moves) [
      | inl t ↦ (
        front v b.data',
        _,
        compacted v,
        grows_at _ (omega arith) ∙ (rw t (compact_at v (omega arith) (apart t))),
        compact_Same v (apart t),
        compact_room t,
      )
      | inr t ↦ (
        front v p,
        _,
        filled v (n + b.size_) p found a (omega arith) (omega arith),
        grows_at _ (omega arith)
            ∙ (rw t (relocate_at v (n + b.size_) p found a (omega arith) (omega arith))),
        relocate_Same v (n + b.size_) p found a (omega arith) (omega arith),
        record { small = omega arith; fits = omega (arith, relocate_room p found a) },
      )
    ]
  ]

  -- Where `malloc` has no memory and a new block is needed, the result is `Exhausted`, and neither
  -- the buffer nor the heap has changed.
  pub append_capacity-exhausted :
      length k.bytes < n + b.size_
      → moves ≡ false
      → append_capacity none b n h ≡ some ((exhausted, b), h)
  unfolding relocate
  append_capacity-exhausted f t = grows_at none f ∙ (rw t refl)
