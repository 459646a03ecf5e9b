-- ===== src/Cmd/Multibulk/Answers.antt =====
-- `MultibulkParser::HandleResponse` of cmd.cpp on any input: where the reader ends.
use redisproxy.Base.{
  ℕ, zero, suc, ◌+◌, ◌≤◌, ◌<◌, ◌≡◌, ◌∙◌, sym, refl, Bool, true, false, some, Bytes, arith, ◌==◌,
  Bool-cases, ◌⊎◌, inl, inr,
}
use mathlib.Core.Bool.{false≢true}
use redisproxy.Base.Int.{pos, ◌==ℤ◌, ltb_ℤ}
use redisproxy.Error.{Error, is_none}
use redisproxy.Reader
use redisproxy.Reader.{Reader}
use redisproxy.Reader.Grows.{Passes, read-Passes}
use redisproxy.Cmd.Multibulk.{
  Multi, initial, read_int32, rounds, bulk_size, held, response_body, response_round, response_loop,
  handle_response,
}
use redisproxy.Cmd.Multibulk.Grows.{Passes-trans, read_int32-Passes}

response_body-Passes :
    (m : Multi) (pbuf : Bytes) (br : Reader) → Passes 0 br (response_body m pbuf br).1.3
unfolding response_body
response_body-Passes m pbuf br = elim (Bool-cases (is_none (Reader.read br pbuf (bulk_size m)).0)) [
  | inl y ↦ rw y (read-Passes br pbuf (bulk_size m))
  | inr n ↦ rw n (read-Passes br pbuf (bulk_size m))
]

-- A round that starts at a bulk stops with an error, or has read a byte.
abbrev First : Reader → Bool × (Error × Multi × Bytes × Reader) → Type 0
First br out = ((out.0 ≡ false) × (is_none out.1.0 ≡ false)) ⊎ (br.offset + 1 ≤ out.1.3.offset)

response_round-Passes :
    (m : Multi) (pbuf : Bytes) (br : Reader)
    → Passes 0 br (response_round m pbuf br).1.3
      × ((m.bulk_len ==ℤ pos 0) ≡ true → First br (response_round m pbuf br))
unfolding response_round
response_round-Passes m pbuf br =
    let (err, n, br', echoed) = read_int32 m.bulk_len br (some pbuf) in
    let (p, f) = read_int32-Passes m.bulk_len br (some pbuf) in
    let m' : Multi = record m { bulk_len = n } in
    let q = response_body-Passes m' (held pbuf echoed) br' in
    elim (Bool-cases (m.bulk_len ==ℤ pos 0)) [
      | inr z ↦ rw z (response_body-Passes m pbuf br, λ y. absurd (false≢true y))
      | inl z ↦ elim (Bool-cases (is_none err)) [
        | inr e ↦ rw (z, e) (p, λ _. inl (refl, e))
        | inl e ↦ elim (Bool-cases (ltb_ℤ (pos 0) n)) [
          | inl l ↦ rw (z, e, l) (Passes-trans 0 0 br br' _ p q, λ _. inr (omega (arith, f e, q.1)))
          | inr l ↦ rw (z, e, l) (p, λ _. inr (f e))
        ]
      ]
    ]

response_loop-Passes :
    (n : ℕ) (m : Multi) (pbuf : Bytes) (br : Reader) → Passes 0 br (response_loop n m pbuf br).3
unfolding response_loop
response_loop-Passes zero m pbuf br = (refl, omega arith)
response_loop-Passes (suc n) m pbuf br =
    let (more, out) = response_round m pbuf br in
    let p = (response_round-Passes m pbuf br).0 in
    elim (Bool-cases more) [
      | inl y ↦ rw y (Passes-trans 0 0 br out.3 _ p (response_loop-Passes n out.1 out.2 out.3))
      | inr y ↦ rw y p
    ]

response_loop-first :
    (n : ℕ) (m : Multi) (pbuf : Bytes) (br : Reader)
    → (m.bulk_len ==ℤ pos 0) ≡ true
    → is_none (response_loop (suc n) m pbuf br).0 ≡ true
    → br.offset < (response_loop (suc n) m pbuf br).3.offset
unfolding response_loop
response_loop-first n m pbuf br z h =
    let (more, out) = response_round m pbuf br in
    let first = (response_round-Passes m pbuf br).1 z in
    elim first [
      | inl (stop, bad) ↦ absurd (false≢true (sym bad ∙ (rw stop at h)))
      | inr on ↦ elim (Bool-cases more) [
        | inl y ↦ rw y (omega (arith, on, (response_loop-Passes n out.1 out.2 out.3).1))
        | inr y ↦ rw y (omega (arith, on))
      ]
    ]

pub handle_response-Passes :
    (pbuf : Bytes) (br : Reader)
    → is_none (handle_response initial pbuf br).0 ≡ true
    → br.offset < (handle_response initial pbuf br).3.offset
unfolding handle_response
handle_response-Passes pbuf br h =
    let (err, n, br', echoed) = read_int32 (pos 0) br (some pbuf) in
    let (_, f) = read_int32-Passes (pos 0) br (some pbuf) in
    let m : Multi = record initial { multibulk_len = n } in
    elim (Bool-cases (Reader.current br == b'*')) [
      | inr z ↦ rw z (response_loop-first 0 _ pbuf br refl (rw z at h))
      | inl z ↦ elim (Bool-cases (is_none err)) [
        | inl y ↦
            rw (z, y)
              (omega (arith, f y, (response_loop-Passes (rounds m) m (held pbuf echoed) br').1))
        | inr y ↦ absurd (false≢true (sym y ∙ (rw (z, y) at h)))
      ]
    ]
