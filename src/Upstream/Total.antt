-- ===== src/Upstream/Total.antt =====
-- `Upstream::OnServerRead` of upstream.cpp: the rounds of its loop, on any input.
use mathlib.Core.Path.{subst}
use mathlib.Core.Bool.{false≢true}
use redisproxy.Base.{
  ℕ, zero, suc, ◌+◌, ◌≤◌, ◌<◌, ◌≡◌, ◌∙◌, ap, refl, Bool, true, false, Option, some, Bytes, [],
  length, arith, ◌==◌, ltb, if◌then◌else◌, Bool-cases, inl, inr,
}
use redisproxy.Error.{Error, ok, try_again, is_none, equal}
use redisproxy.Buffer.View
use redisproxy.Recycle
use redisproxy.Recycle.{Recycle}
use redisproxy.Cmd.Parser
use redisproxy.Cmd.Parser.{Parser, parse_response}
use redisproxy.Cmd.Parser.Total.{IsReset, parse_response-Takes}
use redisproxy.Upstream.{
  Env, Upstream, Pair, no_pair, answer, reply_round, read_round, read_loop, make_room,
  on_server_read,
}

-- Whoever waits at the front of the queue can be answered, with `P` kept, which does not look at the
-- parser and what has been read of a reply.
pub record Keeps {R S : Type 0} (env : Env R S) (P : Upstream R → S → Type 0) : Type 0 where
  pub answers :
      (u : Upstream R) (s : S) (bytes : Bytes) (pair : Pair R) (queue : Recycle (Pair R))
      (err : Error)
      → P u s
      → Recycle.pop u.cmd_queue no_pair ≡ (err, pair, queue)
      → is_none err ≡ true
      → (u' : Upstream R) × (s' : S) × (answer env pair bytes (record u { cmd_queue = queue }) s
          ≡ some (u', s'))
        × P u' s'
        × (u'.parser ≡ u.parser)
  pub parses :
      (u : Upstream R) (s : S) (parser : Parser) (resp : Bytes)
      → P u s
      → P (record u { parser = parser; resp_buffer = resp }) s

module _ {R S : Type 0} (env : Env R S) (P : Upstream R → S → Type 0) where
  -- A round of the loop comes back. If the loop goes on, its parser is at the start of a reply, and if
  -- it was there before, the input is shorter.
  abbrev Rounded : Upstream R → Option ((Bool × Error) × Upstream R × S) → Type 0
  Rounded u r =
      (on : Bool) × (err : Error) × (u' : Upstream R) × (s' : S) × (r ≡ some ((on, err), u', s'))
      × P u' s'
      × (u'.parser.offset ≡ 0)
      × (length u'.parser.input ≤ length u.parser.input)
      × (on ≡ true → IsReset u'.parser)
      × (on ≡ true → IsReset u.parser → length u'.parser.input < length u.parser.input)

  reply_round_total :
      (u : Upstream R) (s : S)
      → Keeps env P
      → P u s
      → (on : Bool) × (err : Error) × (u' : Upstream R) × (s' : S) × (reply_round env u s
          ≡ some ((on, err), u', s'))
        × P u' s'
        × (u'.parser.offset ≡ u.parser.offset)
        × (u'.parser.input ≡ u.parser.input)
        × (on ≡ true → IsReset u'.parser)
  unfolding reply_round Parser.reset
  reply_round_total u s k h =
      let (err, pair, queue) = Recycle.pop u.cmd_queue no_pair in
      elim (Bool-cases (is_none err)) [
        | inl y ↦
            let (u', s', e, h', same) = k.answers u s u.resp_buffer pair queue err h refl y in
            (
              true,
              ok,
              record u' { parser = Parser.reset u'.parser; resp_buffer = [] },
              s',
              rw (y, e, reply_round) refl,
              k.parses u' s' (Parser.reset u'.parser) [] h',
              ap (λ (p : Parser). p.offset) same,
              ap (λ (p : Parser). p.input) same,
              λ _. (refl, refl),
            )
        | inr n ↦
            (false, err, u, s, rw (n, reply_round) refl, h, refl, refl, λ z. absurd (false≢true z))
      ]

  read_round_total :
      (u : Upstream R) (s : S)
      → Keeps env P
      → P u s
      → u.parser.offset ≡ 0
      → Rounded u (read_round env u s)
  unfolding read_round
  read_round_total u s k h o =
      let (err, p, resp) = parse_response u.parser u.resp_buffer in
      let (o', le, less) = parse_response-Takes u.parser u.resp_buffer o in
      let u₁ : Upstream R = record u { parser = p; resp_buffer = resp } in
      let h₁ = k.parses u s p resp h in
      elim (Bool-cases (is_none err)) [
        | inl y ↦
            let (on, err', u', s', r, h', same, input, reset) = reply_round_total u₁ s k h₁ in
            let l = ap (λ (xs : Bytes). length xs) input in
            (
              on,
              err',
              u',
              s',
              rw (y, read_round) r,
              h',
              same ∙ o',
              omega (arith, le, l),
              reset,
              λ _ at. let m = less at y in omega (arith, l, m),
            )
        | inr n ↦ (
          false,
          if equal err try_again then ok else err,
          u₁,
          s,
          rw (n, read_round) refl,
          h₁,
          o',
          le,
          λ z. absurd (false≢true z),
          λ z. absurd (false≢true z),
        )
      ]

  -- What a call of the loop comes back with.
  abbrev Ends : Option (Error × Upstream R × S) → Type 0
  Ends r =
      (err : Error) × (u' : Upstream R) × (s' : S) × (r ≡ some (err, u', s'))
      × P u' s'
      × (u'.parser.offset ≡ 0)

  round-Ends :
      (fuel : ℕ) (u : Upstream R) (s : S) (on : Bool) (err : Error) (u' : Upstream R) (s' : S)
      → (length u.parser.input == 0) ≡ false
      → read_round env u s ≡ some ((on, err), u', s')
      → P u' s'
      → u'.parser.offset ≡ 0
      → (on ≡ true → Ends (read_loop env fuel u' s'))
      → Ends (read_loop env (suc fuel) u s)
  unfolding read_loop
  round-Ends fuel u s true err u' s' n r h o rest =
      let (err', u'', s'', e, h', o') = rest refl in
      (err', u'', s'', rw (n, r, read_loop) e, h', o')
  round-Ends fuel u s false err u' s' n r h o rest = (err, u', s', rw (n, r, read_loop) refl, h, o)

  -- A round, and the rounds behind it if the loop goes on.
  loop_step :
      (fuel : ℕ) (u : Upstream R) (s : S) (on : Bool) (err : Error) (u' : Upstream R) (s' : S)
      → read_round env u s ≡ some ((on, err), u', s')
      → P u s
      → P u' s'
      → u.parser.offset ≡ 0
      → u'.parser.offset ≡ 0
      → (on ≡ true → Ends (read_loop env fuel u' s'))
      → Ends (read_loop env (suc fuel) u s)
  unfolding read_loop
  loop_step fuel u s on err u' s' r h h' o o' rest =
      elim (Bool-cases (length u.parser.input == 0)) [
        | inl y ↦ (ok, u, s, rw y refl, h, o)
        | inr n ↦ round-Ends fuel u s on err u' s' n r h' o' rest
      ]

  -- Induction on the rounds that are left.
  read_loop_total :
      (fuel : ℕ) (u : Upstream R) (s : S)
      → Keeps env P
      → P u s
      → u.parser.offset ≡ 0
      → IsReset u.parser
      → length u.parser.input < fuel
      → Ends (read_loop env fuel u s)
  read_loop_total zero u s k h o at l = absurd (omega arith)
  read_loop_total (suc fuel) u s k h o at l =
      let (on, err, u', s', r, h', o', le, reset, less) = read_round_total u s k h o in
      loop_step fuel u s on err u' s' r h h' o o'
        (λ y. read_loop_total fuel u' s' k h' o' (reset y) (let short = less y at in omega arith))

  -- The loop with the fuel of `OnServerRead` ends, whatever has been read and parsed before.
  read_all_total :
      (u : Upstream R) (s : S)
      → Keeps env P
      → P u s
      → u.parser.offset ≡ 0
      → Ends (read_loop env (length u.parser.input + 2) u s)
  read_all_total u s k h o =
      let fuel = length u.parser.input + 1 in
      let (on, err, u', s', r, h', o', le, reset, _) = read_round_total u s k h o in
      let more : suc fuel ≡ length u.parser.input + 2 = omega arith in
      subst (λ n. Ends (read_loop env n u s)) more
        (loop_step fuel u s on err u' s' r h h' o o'
          (λ y. read_loop_total fuel u' s' k h' o' (reset y) (omega (arith, le))))

  make_room-offset :
      (min_size : ℕ) (grown : Option ℕ) (u : Upstream R)
      → (make_room env min_size grown u).1.parser.offset ≡ u.parser.offset
  unfolding make_room
  make_room-offset min_size grown u = elim (Bool-cases (ltb u.room min_size)) [
    | inl y ↦ rw y refl
    | inr n ↦ rw n refl
  ]

  -- `OnServerRead` comes back on any input, in any state of the parser between two calls, if those who
  -- wait can be answered: it has no fault and needs no more rounds than it is given. It keeps what
  -- the answers keep, and leaves the reader at the start of the input again, so that the next
  -- call comes back too.
  pub on_server_read_total :
      (u : Upstream R) (s : S) (min_size : ℕ) (grown : Option ℕ)
      → Keeps env P
      → ((u : Upstream R) (s : S) (room : ℕ) → P u s → P (record u { room = room }) s)
      → P u s
      → u.parser.offset ≡ 0
      → (err : Error) × (u' : Upstream R) × (s' : S) × (on_server_read env min_size grown u s
          ≡ some (err, u', s'))
        × P u' s'
        × (u'.parser.offset ≡ 0)
  unfolding on_server_read make_room
  on_server_read_total u s min_size grown k roomy h o =
      let (err, u', s', r, h', o') = read_all_total u s k h o in
      elim (Bool-cases (is_none err)) [
        | inl y ↦ elim (Bool-cases (ltb u'.room min_size)) [
          | inl z ↦ (
            (View.append_capacity grown u'.room min_size).0,
            record u' { room = (View.append_capacity grown u'.room min_size).1 },
            s',
            rw (r, y, z, on_server_read, make_room) refl,
            roomy u' s' (View.append_capacity grown u'.room min_size).1 h',
            o',
          )
          | inr z ↦ (ok, u', s', rw (r, y, z, on_server_read, make_room) refl, h', o')
        ]
        | inr n ↦ (err, u', s', rw (r, n, on_server_read) refl, h', o')
      ]
