-- ===== src/Recycle/Valid.antt =====
-- The invariant of the ring of recycle.h, and that its operations keep it.
use redisproxy.Base.{
  ℕ, ◌+◌, ◌-◌, ◌^◌, ◌<◌, ◌≡◌, ◌⊎◌, refl, length, length-set, replicate, leb, arith, if◌then◌else◌,
  zero, suc, ap,
}
use redisproxy.Recycle.{Recycle, advance, create, push, pop}

-- Both positions lie in the vector, whose size is a `std::size_t`.
pub record IsValid {ℓ} {A : Type ℓ} (r : Recycle A) : Type 0 where
  pub size_lt : length r.holder < 2 ^ 64
  pub start_lt : r.start < length r.holder
  pub end_lt : r.end < length r.holder

-- The step of an index is 1, or back to 0 at the end of the vector.
pub advance_cases :
    (i n : ℕ)
    → i < n
    → n < 2 ^ 64
    → ((advance i n ≡ i + 1) × (i + 1 < n)) ⊎ ((advance i n ≡ 0) × (i + 1 ≡ n))
advance_cases i n h k = grind arith

-- The number of elements.
abbrev pub count {ℓ} : {A : Type ℓ} → Recycle A → ℕ
count r = if leb r.start r.end then r.end - r.start else r.end + length r.holder - r.start

pub length-replicate {ℓ} : {A : Type ℓ} (n : ℕ) (a : A) → length (replicate n a) ≡ n
length-replicate zero a = refl
length-replicate (suc n) a = ap suc (length-replicate n a)

module _ {ℓ} {A : Type ℓ} where
  -- A new ring of at least one place is valid and empty.
  pub create-IsValid :
      (default : A) (n : ℕ)
      → 0 < n
      → n < 2 ^ 64
      → IsValid (create default n) × (count (create default n) ≡ 0)
  unfolding create
  create-IsValid default n h k = ground (arith, length-replicate n default)

  pub push-IsValid : {r : Recycle A} (x : A) → IsValid r → IsValid (push r x).1
  unfolding push
  push-IsValid {r} x v =
      ground (
        arith,
        length-set r.holder r.end x,
        advance_cases r.end (length r.holder) v.end_lt v.size_lt,
      )

  pub pop-IsValid : {r : Recycle A} (x : A) → IsValid r → IsValid (pop r x).2
  unfolding pop
  pop-IsValid {r} x v = ground (arith, advance_cases r.start (length r.holder) v.start_lt v.size_lt)

  -- No operation changes the number of places.
  pub length-push : (r : Recycle A) (x : A) → length (push r x).1.holder ≡ length r.holder
  unfolding push
  length-push r x = ground (arith, length-set r.holder r.end x)

  pub length-pop : (r : Recycle A) (x : A) → length (pop r x).2.holder ≡ length r.holder
  unfolding pop
  length-pop r x = ground arith
