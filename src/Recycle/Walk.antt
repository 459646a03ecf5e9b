-- ===== src/Recycle/Walk.antt =====
-- The iterator of recycle.h, as the loop `for( FromBegin; !Eof; Next ) *it` uses it, and
-- `EraseUntil` at the place that it has reached.
use redisproxy.Base.{
  ℕ, zero, suc, ◌≤◌, ◌<◌, ◌≡◌, ◌≢◌, refl, ap₂, true, false, List, [], ◌∷◌, Option, some, length,
  get_elem?-eq-get_or, drop, arith,
}
use mathlib.Core.List.{map}
use redisproxy.Recycle.{Recycle, Iterator, advance, from_begin, erase_until, eof, next, deref}
use redisproxy.Recycle.Valid.{IsValid, advance_cases, count}
use redisproxy.Recycle.Fifo.{Behind, window, contents, count-Behind}

module _ {ℓ} {A : Type ℓ} where
  -- The elements that the loop visits from `it` on, in at most `fuel` rounds.
  unfoldable pub walk : ℕ → Recycle A → Iterator → List (Option A)
  walk zero r it = []
  walk (suc fuel) r it = elim (eof r it) [
    | true ↦ []
    | false ↦ deref r it ∷ walk fuel r (next r it)
  ]

  -- `Next`, `k` times.
  unfoldable pub nexts : ℕ → Recycle A → Iterator → Iterator
  nexts zero r it = it
  nexts (suc k) r it = nexts k r (next r it)

  walk-window :
      (d : A) (r : Recycle A) (host i k fuel : ℕ)
      → IsValid r
      → host ≢ 0
      → i < length r.holder
      → k < length r.holder
      → k ≤ fuel
      → Behind (length r.holder) i k r.end
      → walk fuel r (record { host = host; index = i })
        ≡ map some (window d r.holder (length r.holder) i k)
  unfolding walk eof next deref
  walk-window d r host i zero zero v h hi hk hf b = refl
  walk-window d r host i zero (suc fuel) v h hi hk hf b =
      let t : eof r (record { host = host; index = i }) ≡ true = ground arith in rw (t, walk)
  walk-window d r host i (suc k) zero v h hi hk hf b = absurd (omega arith)
  walk-window d r host i (suc k) (suc fuel) v h hi hk hf b =
      let n = length r.holder in
      let c = advance_cases i n hi v.size_lt in
      let t : eof r (record { host = host; index = i }) ≡ false = ground arith in
      rw (t, walk)
        (ap₂ ◌∷◌ (get_elem?-eq-get_or r.holder i d hi) (
          walk-window d r host (advance i n) k fuel v h (omega (arith, c)) (omega arith)
            (omega arith) (omega (arith, c))))

  -- The loop visits exactly the elements of the queue, oldest first, and ends: as many rounds as
  -- the ring has places are enough.
  pub walk-contents :
      (d : A) (self : ℕ) {r : Recycle A}
      → IsValid r
      → self ≢ 0
      → walk (length r.holder) r (from_begin self r) ≡ map some (contents d r)
  unfolding from_begin
  walk-contents d self {r} v h =
      walk-window d r self r.start (count r) (length r.holder) v h v.start_lt (ground arith)
        (ground arith) (count-Behind v)

  erase-window :
      (d : A) (r : Recycle A) (host i k j : ℕ)
      → IsValid r
      → i < length r.holder
      → k < length r.holder
      → j ≤ k
      → Behind (length r.holder) i k r.end
      → let r' = (erase_until r (nexts j r (record { host = host; index = i }))).1 in
        IsValid r' × (contents d r' ≡ drop j (window d r.holder (length r.holder) i k))
  unfolding erase_until nexts next
  erase-window d r host i k zero v hi hk hj b =
      let e : count (record r { start = i }) ≡ k = ground arith in (ground arith, rw e)
  erase-window d r host i zero (suc j) v hi hk hj b = absurd (omega arith)
  erase-window d r host i (suc k) (suc j) v hi hk hj b =
      let n = length r.holder in
      let c = advance_cases i n hi v.size_lt in
      erase-window d r host (advance i n) k j v (omega (arith, c)) (omega arith) (omega arith)
        (omega (arith, c))

  -- `EraseUntil` at an iterator that has passed `k` elements of a valid ring removes exactly these
  -- from the front of the queue, and the ring stays valid.
  pub erase_until-drop :
      (d : A) (self k : ℕ) {r : Recycle A}
      → IsValid r
      → k ≤ count r
      → let r' = (erase_until r (nexts k r (from_begin self r))).1 in
        IsValid r' × (contents d r' ≡ drop k (contents d r))
  unfolding from_begin
  erase_until-drop d self k {r} v h =
      erase-window d r self r.start (count r) k v v.start_lt (ground arith) h (count-Behind v)
