-- ===== src/Reader/Grows.antt =====
-- buffer_reader.cpp: where the functions of a reader leave it.
use redisproxy.Base.{
  ℕ, ◌+◌, ◌≤◌, ◌<◌, ◌≡◌, ap, refl, true, false, [], ◌∷◌, Bytes, length, drop, length-drop, arith,
  ◌==◌, ltb, Option-cases, Bool-cases, inl, inr, ◌⊎◌, le→ltb,
}
use redisproxy.Base.Memchr.{memchr, memchr_sound}
use mathlib.Core.Bool.{false≢true}
use redisproxy.Buffer.View
use redisproxy.Reader.Laws.{rest-At}
use redisproxy.Error.{is_none, equal, not_found}
use redisproxy.Reader.{
  Reader, eof, rest, take_next, read_until, read_until_loop, read_until_any, read, next,
}

-- The reader `br'` is on the same buffer, `n` bytes further on or more.
abbrev pub Passes : ℕ → Reader → Reader → Type 0
Passes n br br' = (br'.buffer ≡ br.buffer) × (br.offset + n ≤ br'.offset)

pub take_next-Passes :
    (br : Reader) (buf : Bytes) (n : ℕ)
    → Passes 0 br (take_next br buf n).2
      × (is_none (take_next br buf n).0 ≡ true → (take_next br buf n).2.offset ≡ br.offset + n)
unfolding take_next
take_next-Passes br buf n = ground arith

pub read_until-Passes :
    (br : Reader) (buf : Bytes) (ch n : ℕ)
    → Passes 0 br (read_until br buf ch n).2
      × (is_none (read_until br buf ch n).0 ≡ true
          → br.offset + n ≤ (read_until br buf ch n).2.offset)
unfolding read_until
read_until-Passes br buf ch n = elim (Bool-cases (eof br)) [
  | inl e ↦ rw e ((refl, omega arith), λ h. absurd (cc))
  | inr e ↦ elim (Option-cases (memchr (rest br) ch)) [
    | inl o ↦ rw (e, o) ((refl, omega arith), λ h. absurd (cc))
    | inr (i, o) ↦
        let (p, t) = take_next-Passes br buf (i + n) in rw (e, o) (p, λ h. omega (arith, t h))
  ]
]

pub read-Passes : (br : Reader) (buf : Bytes) (n : ℕ) → Passes 0 br (read br buf n).2
unfolding read
read-Passes br buf n = ground (arith, take_next-Passes br buf n)

read_until_loop-Passes :
    (br : Reader) (buf chs : Bytes)
    → is_none (read_until_loop br buf chs 0).0 ≡ true
    → Passes 0 br (read_until_loop br buf chs 0).2
      × ((read_until_loop br buf chs 0).2.offset < length br.buffer)
unfolding read_until_loop
read_until_loop-Passes br buf [] h = absurd (cc)
read_until_loop-Passes br buf (ch ∷ chs) h = elim (Option-cases (memchr (rest br) ch)) [
  | inl o ↦
      rw (o, read_until_loop) (read_until_loop-Passes br buf chs (rw (o, read_until_loop) at h))
  | inr (i, o) ↦
      let (p, t) = take_next-Passes br buf (i + 0) in
      let (lt, _) = memchr_sound ch (rest br) i o in
      let all = ap length (rest-At br (drop br.offset br.buffer) refl) in
      rw (o, read_until_loop)
        (
          p,
          omega (arith, t (rw (o, read_until_loop) at h), lt, all, length-drop br.offset br.buffer),
        )
]

-- A byte that is found lies inside.
pub read_until_any-Passes :
    (br : Reader) (buf chs : Bytes)
    → is_none (read_until_any br buf chs 0).0 ≡ true
    → Passes 0 br (read_until_any br buf chs 0).2
      × ((read_until_any br buf chs 0).2.offset < length br.buffer)
unfolding read_until_any
read_until_any-Passes br buf chs h = elim (Bool-cases (eof br)) [
  | inl e ↦ absurd (false≢true (simp e at h))
  | inr e ↦ rw e (read_until_loop-Passes br buf chs (rw e at h))
]

-- `Next( 1 )` of a reader that is not at the end.
pub next-Passes : (br : Reader) → br.offset < length br.buffer → Passes 1 br (next br 1).1
unfolding next eof
next-Passes br h = ground (arith, h)

take_next-ok :
    (br : Reader) (buf : Bytes) (n : ℕ)
    → 0 < n
    → n ≤ length (rest br)
    → is_none (take_next br buf n).0 ≡ true
unfolding take_next View.append
take_next-ok br buf n h l =
    let z : (n == 0) ≡ false = ground (arith, h) in
    let t : ltb (length (rest br)) n ≡ false = le→ltb (length (rest br)) n l in rw (z, t) refl

-- `ReadUntil` of a reader that is not at the end fails only where the byte is not there.
pub read_until_cases :
    (br : Reader) (buf : Bytes) (ch : ℕ)
    → eof br ≡ false
    → (equal (read_until br buf ch 1).0 not_found ≡ true)
      ⊎ (br.offset + 1 ≤ (read_until br buf ch 1).2.offset)
unfolding read_until
read_until_cases br buf ch e = elim (Option-cases (memchr (rest br) ch)) [
  | inl o ↦ inl (rw (e, o) refl)
  | inr (i, o) ↦
      let (lt, _) = memchr_sound ch (rest br) i o in
      let t = take_next-ok br buf (i + 1) (omega arith) (omega (arith, lt)) in
      inr (rw (e, o) (omega (arith, (take_next-Passes br buf (i + 1)).1 t)))
]
