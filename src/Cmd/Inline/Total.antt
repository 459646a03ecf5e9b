-- ===== src/Cmd/Inline/Total.antt =====
-- `InlineParser::HandleRequest` of cmd.cpp on any input: the rounds of its loop, and where the reader ends.
use redisproxy.Base.{
  ℕ, zero, suc, ◌+◌, ◌-◌, ◌<◌, ◌≡◌, ◌∙◌, ap, sym, refl, Bool, true, false, Option, some, [], length,
  arith, ◌==◌, if◌then◌else◌, Bool-cases, inl, inr,
}
use mathlib.Core.Bool.{false≢true}
use redisproxy.Error.{Error, ok, try_again, not_found, is_none, equal}
use redisproxy.Reader
use redisproxy.Reader.{Reader}
use redisproxy.Reader.Grows.{read_until_any-Passes, next-Passes}
use redisproxy.Cmd.{Cmd, append_arg}
use redisproxy.Cmd.Inline.{split_sign, last_arg, request_loop, handle_request}

-- A loop that ends with a result; where that is OK, at least a byte has been read.
abbrev pub Ends : Reader → Option (Error × Cmd × Reader) → Type 0
Ends br out =
    (err : Error) × (cmd : Cmd) × (br' : Reader) × (out ≡ some (err, cmd, br'))
    × (is_none err ≡ true → br.offset < br'.offset)

pub masked :
    (err : Error) (b : Bool) → is_none err ≡ false → is_none (if b then try_again else err) ≡ false
masked err true h = refl
masked err false h = h

request_loop-Ends :
    (fuel : ℕ) (cmd : Cmd) (br : Reader)
    → length br.buffer - br.offset < fuel
    → Ends br (request_loop fuel cmd br)
unfolding request_loop
request_loop-Ends zero cmd br l = absurd (omega arith)
request_loop-Ends (suc fuel) cmd br l =
    let (err, buf, br') = Reader.read_until_any br [] split_sign 0 in
    let br'' = (Reader.next br' 1).1 in
    elim (Bool-cases (is_none err)) [
      | inr n ↦ (
        if equal err not_found then try_again else err,
        cmd,
        br',
        rw (n, request_loop) refl,
        λ h. absurd (false≢true (sym (masked err (equal err not_found) n) ∙ h)),
      )
      | inl y ↦
          let ((same, on), lt) = read_until_any-Passes br [] split_sign y in
          let (same', on') = next-Passes br' (ground (arith, lt, ap length same)) in
          elim (Bool-cases (Reader.current br' == b'\n')) [
            | inl z ↦ (
              ok,
              append_arg cmd (last_arg buf br'),
              br'',
              rw (y, z, request_loop) refl,
              λ _. omega (arith, on, on'),
            )
            | inr z ↦
                let (e, c, r, eq, more) =
                  request_loop-Ends fuel (append_arg cmd buf) br''
                    (omega (arith, ap length same, ap length same', on, on', lt, l)) in
                (e, c, r, rw (y, z, request_loop) eq, λ h. omega (arith, more h, on, on'))
          ]
    ]

pub handle_request-Ends : (cmd : Cmd) (br : Reader) → Ends br (handle_request cmd br)
unfolding handle_request
handle_request-Ends cmd br = request_loop-Ends (length br.buffer + 1) cmd br (omega arith)
