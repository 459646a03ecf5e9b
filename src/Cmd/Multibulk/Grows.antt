-- ===== src/Cmd/Multibulk/Grows.antt =====
-- `MultibulkParser::HandleRequest` of cmd.cpp on any input: where the reader ends.
use redisproxy.Base.{
  ℕ, zero, suc, ◌+◌, ◌≤◌, ◌<◌, ◌≡◌, ◌∙◌, sym, refl, true, Option, none, Bytes, [], arith,
  Bool-cases, inl, inr,
}
use mathlib.Core.Bool.{false≢true}
use redisproxy.Base.Int.{ℤ, pos, ◌==ℤ◌}
use redisproxy.Error.{not_found, is_none, equal}
use redisproxy.Reader
use redisproxy.Reader.{Reader}
use redisproxy.Reader.Grows.{Passes, read_until-Passes, read-Passes}
use redisproxy.Cmd.{Cmd}
use redisproxy.Cmd.Inline.Total.{masked}
use redisproxy.Cmd.Multibulk.{
  Multi, initial, read_int32, rounds, bulk_size, request_bulk_len, request_round, request_loop,
  handle_request,
}

pub Passes-trans : (m n : ℕ) (a b c : Reader) → Passes m a b → Passes n b c → Passes (m + n) a c
Passes-trans m n a b c (p, x) (q, y) = (q ∙ p, omega (arith, x, y))

-- What `readInt32` reads, and that it has read a byte where it is OK.
pub read_int32-Passes :
    (i : ℤ) (br : Reader) (pbuf : Option Bytes)
    → Passes 0 br (read_int32 i br pbuf).2
      × (is_none (read_int32 i br pbuf).0 ≡ true → br.offset + 1 ≤ (read_int32 i br pbuf).2.offset)
unfolding read_int32
read_int32-Passes i br pbuf =
    let (p, f) = read_until-Passes br [] b'\n' 1 in
    let err = (Reader.read_until br [] b'\n' 1).0 in
    elim (Bool-cases (is_none err)) [
      | inl y ↦ rw (y, read_int32) (p, λ _. f y)
      | inr n ↦
          rw (n, read_int32)
            (p, λ h. absurd (false≢true (sym (masked err (equal err not_found) n) ∙ h)))
    ]

request_bulk_len-Passes : (m : Multi) (br : Reader) → Passes 0 br (request_bulk_len m br).2
unfolding request_bulk_len
request_bulk_len-Passes m br = elim (Bool-cases (m.bulk_len ==ℤ pos 0)) [
  | inl y ↦ rw y (read_int32-Passes m.bulk_len br none).0
  | inr n ↦ rw n (refl, omega arith)
]

request_round-Passes :
    (m : Multi) (cmd : Cmd) (br : Reader) → Passes 0 br (request_round m cmd br).1.3
unfolding request_round
request_round-Passes m cmd br =
    let (err, m', br') = request_bulk_len m br in
    let p = request_bulk_len-Passes m br in
    let q = Passes-trans 0 0 br br' _ p (read-Passes br' [] (bulk_size m')) in
    elim (Bool-cases (is_none err)) [
      | inl y ↦ elim (Bool-cases (is_none (Reader.read br' [] (bulk_size m')).0)) [
        | inl z ↦ rw (y, z) q
        | inr z ↦ rw (y, z) q
      ]
      | inr n ↦ rw n p
    ]

request_loop-Passes :
    (n : ℕ) (m : Multi) (cmd : Cmd) (br : Reader) → Passes 0 br (request_loop n m cmd br).3
unfolding request_loop
request_loop-Passes zero m cmd br = (refl, omega arith)
request_loop-Passes (suc n) m cmd br =
    let (more, out) = request_round m cmd br in
    let p = request_round-Passes m cmd br in
    elim (Bool-cases more) [
      | inl y ↦ rw y (Passes-trans 0 0 br out.3 _ p (request_loop-Passes n out.1 out.2 out.3))
      | inr y ↦ rw y p
    ]

pub handle_request-Passes :
    (cmd : Cmd) (br : Reader)
    → is_none (handle_request initial cmd br).0 ≡ true
    → br.offset < (handle_request initial cmd br).3.offset
unfolding handle_request
handle_request-Passes cmd br h =
    let (err, n, br', _) = read_int32 (pos 0) br none in
    let (_, f) = read_int32-Passes (pos 0) br none in
    let m : Multi = record initial { multibulk_len = n } in
    elim (Bool-cases (is_none err)) [
      | inl y ↦ rw y (omega (arith, f y, (request_loop-Passes (rounds m) m cmd br').1))
      | inr z ↦ absurd (false≢true (sym z ∙ (rw z at h)))
    ]
