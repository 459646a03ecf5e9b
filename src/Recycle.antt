-- ===== src/Recycle.antt =====
-- src/recycle.h: `Recycle<T>`, a queue over a `std::vector` used as a ring, and its `Iterator<T>`.
-- The element type is a parameter. A ring that holds `n` places has an element in at most `n - 1`
-- of them: `start_ == end_` means that it is empty.
pub mod Valid
pub mod Fifo
pub mod Walk
mod Tests
use redisproxy.Base.{
  ℕ, zero, suc, ◌+◌, ◌%◌, ◌^◌, Bool, true, false, not, ◌&&◌, Option, List, [], ◌∷◌, length,
  get_elem?, get_or, set, replicate, ◌==◌, if◌then◌else◌,
}
use redisproxy.Error.{Error, ok, full, empty}

-- `holder_`, `start_` and `end_`.
pub record Recycle {ℓ} (A : Type ℓ) : Type ℓ where
  pub holder : List A
  pub start : ℕ
  pub end : ℕ

-- `(index + 1) % size` on `std::size_t`.
abbrev pub advance : ℕ → ℕ → ℕ
advance index size = (index + 1) % 2 ^ 64 % size

-- `Iterator<T>`: the address of the ring, 0 for a null pointer, and a position in it.
pub record Iterator : Type 0 where
  pub host : ℕ
  pub index : ℕ

module _ {ℓ} {A : Type ℓ} where
  -- The constructor: `holder_.resize( size )` fills the ring with copies of `T()`.
  pub create : A → ℕ → Recycle A
  create default size = record { holder = replicate size default; start = 0; end = 0 }

  pub push : Recycle A → A → Error × Recycle A
  push r data' =
      let new_end = advance r.end (length r.holder) in
      if new_end == r.start
      then (full, r)
      else (ok, record r { holder = set r.holder r.end data'; end = new_end })

  -- The middle component is `*data` after the call.
  pub pop : Recycle A → A → Error × A × Recycle A
  pop r data' = if r.start == r.end then (empty, data', r) else (
    ok,
    get_or r.holder r.start data',
    record r { start = advance r.start (length r.holder) },
  )

  -- `Get`; `none` is an access out of the vector's range.
  pub get : Recycle A → ℕ → Option A
  get r index = get_elem? r.holder index

  pub is_empty : Recycle A → Bool
  is_empty r = r.start == r.end

  pub is_full : Recycle A → Bool
  is_full r = advance r.end (length r.holder) == r.start

  -- `FromBegin` of the ring at address `self`.
  pub from_begin : ℕ → Recycle A → Iterator
  from_begin self r = record { host = self; index = r.start }

  pub erase_until : Recycle A → Iterator → Error × Recycle A
  erase_until r it = (ok, record r { start = it.index })

  -- `Iterator::Eof`, where `r` is what `host` points to.
  pub eof : Recycle A → Iterator → Bool
  eof r it = if it.host == 0 then true else it.index == r.end

  -- `Iterator::Next`
  pub next : Recycle A → Iterator → Iterator
  next r it = record it { index = advance it.index (length r.holder) }

  -- `Iterator::operator*`
  pub deref : Recycle A → Iterator → Option A
  deref r it = get_elem? r.holder it.index

-- `Iterator::operator++(int)`
pub increment : Iterator → Iterator
increment it = record it { index = (it.index + 1) % 2 ^ 64 }

-- `Iterator::Equal`, which `==` and `!=` call.
pub same : Iterator → Iterator → Bool
same a b = a.host == b.host && a.index == b.index
