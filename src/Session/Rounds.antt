-- ===== src/Session/Rounds.antt =====
-- `Session::OnClientRead` of session.cpp: one round of its loop, on any input.
use redisproxy.Base.{
  ◌≤◌, ◌<◌, ◌≡◌, ◌∙◌, ap, refl, Bool, true, false, some, Bytes, length, arith, Bool-cases, inl, inr,
}
use mathlib.Core.Bool.{false≢true}
use redisproxy.Error.{Error, ok, try_again, is_none, equal, to_text}
use redisproxy.Mem.{Ptr}
use redisproxy.Conn.{Flags}
use redisproxy.Cmd
use redisproxy.Cmd.{Cmd}
use redisproxy.Cmd.Parser
use redisproxy.Cmd.Parser.{parse_request}
use redisproxy.Cmd.Parser.Total.{IsReset, parse_request-Takes}
use redisproxy.Session.{
  Env, Session, Flow, again, stop, returns, net_flag_close, submit, request_round, read_round,
}

abbrev pub goes_on : Flow → Bool
goes_on again = true
goes_on other = false

-- The identity of a session and its connection.
abbrev pub Same : Session → Session → Type 0
Same sess sess' = (sess'.id ≡ sess.id) × (sess'.client_conn ≡ sess.client_conn)

-- What a session calls while it serves `conn` comes back, and keeps `P`.
pub record Keeps {S : Type 0} (env : Env S) (conn : Ptr) (P : S → Type 0) : Type 0 where
  pub pushes :
      (c : Cmd) (s : S)
      → P s
      → (err : Error) × (s' : S) × (env.push_request c s ≡ some (err, s')) × P s'
  pub reads :
      (flag : Bool) (s : S)
      → P s
      → (err : Error) × (s' : S) × (env.set_readable conn flag s ≡ some (err, s')) × P s'
  pub writes :
      (bytes : Bytes) (flags : Flags) (s : S)
      → P s
      → (err : Error) × (s' : S) × (env.write_to_buffer conn bytes flags s ≡ some (err, s')) × P s'

module _ {S : Type 0} (env : Env S) (conn : Ptr) (P : S → Type 0) where
  pub submit_total :
      (sess : Session) (s : S)
      → Keeps env conn P
      → P s
      → (flow : Flow) × (c : Cmd) × (s' : S) × (submit env conn sess s
          ≡ some (flow, record sess { current_cmd = c }, s'))
        × P s'
  unfolding submit
  submit_total sess s k h =
      let (err, s₁, e, h₁) = k.pushes sess.current_cmd s h in
      elim (Bool-cases (is_none err)) [
        | inl y ↦ (again, Cmd.reset sess.current_cmd, s₁, rw (e, y, submit) refl, h₁)
        | inr n ↦ elim (Bool-cases (equal err try_again)) [
          | inl y ↦
              let (_, s₂, e₂, h₂) = k.reads false s₁ h₁ in
              (returns ok, sess.current_cmd, s₂, rw (e, n, y, e₂, submit) refl, h₂)
          | inr o ↦ (returns err, sess.current_cmd, s₁, rw (e, n, o, submit) refl, h₁)
        ]
      ]

  -- The call for a request, if the loop goes on: its parser is at the start of a request again.
  abbrev Rounded : Session → Flow → Session → S → Type 0
  Rounded sess flow sess' s' =
      P s'
      × (sess'.parser.offset ≡ sess.parser.offset)
      × (sess'.parser.input ≡ sess.parser.input)
      × (goes_on flow ≡ true → IsReset sess'.parser)
      × Same sess sess'

  settled :
      (sess : Session) (s : S) (flow : Flow) (c : Cmd) (s' : S)
      → submit env conn sess s ≡ some (flow, record sess { current_cmd = c }, s')
      → P s'
      → (sess' : Session) × (request_round env conn sess s ≡ some (flow, sess', s'))
        × Rounded sess flow sess' s'
  unfolding request_round Parser.reset
  settled sess s again c s' e h = (
    record sess { current_cmd = c; parser = Parser.reset sess.parser },
    rw (e, request_round) refl,
    (h, refl, refl, λ _. (refl, refl), (refl, refl)),
  )
  settled sess s stop c s' e h = (
    record sess { current_cmd = c },
    rw (e, request_round) refl,
    (h, refl, refl, λ n. absurd (false≢true n), (refl, refl)),
  )
  settled sess s (returns err) c s' e h = (
    record sess { current_cmd = c },
    rw (e, request_round) refl,
    (h, refl, refl, λ n. absurd (false≢true n), (refl, refl)),
  )

  -- A round of the loop comes back. If the loop goes on, its parser is at the start of a request, and
  -- if it was there before, the input is shorter.
  pub read_round_total :
      (sess : Session) (s : S)
      → Keeps env conn P
      → P s
      → sess.parser.offset ≡ 0
      → (flow : Flow) × (sess' : Session) × (s' : S) × (read_round env conn sess s
          ≡ some (flow, sess', s'))
        × P s'
        × (sess'.parser.offset ≡ 0)
        × (length sess'.parser.input ≤ length sess.parser.input)
        × (goes_on flow ≡ true → IsReset sess'.parser)
        × (goes_on flow ≡ true
            → IsReset sess.parser
            → length sess'.parser.input < length sess.parser.input)
        × Same sess sess'
  unfolding read_round
  read_round_total sess s k h o =
      let (err, p, c, e, (o', le, less)) = parse_request-Takes sess.parser sess.current_cmd o in
      let sess₁ : Session = record sess { parser = p; current_cmd = c } in
      elim (Bool-cases (is_none err)) [
        | inl y ↦
            let (flow, c', s', sub, h') = submit_total sess₁ s k h in
            let (sess', r, (h'', same, input, reset, kept)) = settled sess₁ s flow c' s' sub h' in
            (
              flow,
              sess',
              s',
              rw (e, y, read_round) r,
              h'',
              same ∙ o',
              omega (arith, le, ap (λ (xs : Bytes). length xs) input),
              reset,
              λ _ at. let l = less at y in omega (arith, l, ap (λ (xs : Bytes). length xs) input),
              kept,
            )
        | inr n ↦ elim (Bool-cases (equal err try_again)) [
          | inl y ↦ (
            stop,
            sess₁,
            s,
            rw (e, n, y, read_round) refl,
            h,
            o',
            le,
            λ z. absurd (false≢true z),
            λ z. absurd (false≢true z),
            (refl, refl),
          )
          | inr m ↦
              let (_, s', w, h') = k.writes (to_text err) net_flag_close s h in
              (
                returns err,
                sess₁,
                s',
                rw (e, n, m, w, read_round) refl,
                h',
                o',
                le,
                λ z. absurd (false≢true z),
                λ z. absurd (false≢true z),
                (refl, refl),
              )
        ]
      ]
