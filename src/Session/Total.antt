-- ===== src/Session/Total.antt =====
-- `Session::OnClientRead` of session.cpp: the rounds of its loop, on any input.
use redisproxy.Base.{
  ℕ, zero, suc, ◌+◌, ◌<◌, ◌≡◌, ◌∙◌, refl, true, false, Option, some, length, arith, ◌==◌, ltb,
  Bool-cases, inl, inr,
}
use mathlib.Core.Path.{subst}
use redisproxy.Error.{Error}
use redisproxy.Mem.{Ptr}
use redisproxy.Cmd
use redisproxy.Cmd.{Cmd}
use redisproxy.Cmd.Parser.Total.{IsReset}
use redisproxy.Session.{
  Env, Session, Flow, again, stop, returns, submit, read_round, read_loop, read_all, make_room,
  finish, on_client_read,
}
use redisproxy.Session.Rounds.{goes_on, Same, Keeps, submit_total, read_round_total}

module _ {S : Type 0} (env : Env S) (conn : Ptr) (P : S → Type 0) where
  -- What a call of the loop comes back with.
  abbrev Ends : Session → Option (Flow × Session × S) → Type 0
  Ends sess r =
      (flow : Flow) × (sess' : Session) × (s' : S) × (r ≡ some (flow, sess', s'))
      × P s'
      × (sess'.parser.offset ≡ 0)
      × Same sess sess'

  round-Ends :
      (fuel : ℕ) (sess : Session) (s : S) (flow : Flow) (sess' : Session) (s' : S)
      → (length sess.parser.input == 0) ≡ false
      → read_round env conn sess s ≡ some (flow, sess', s')
      → P s'
      → sess'.parser.offset ≡ 0
      → Same sess sess'
      → (goes_on flow ≡ true → Ends sess' (read_loop env fuel conn sess' s'))
      → Ends sess (read_loop env (suc fuel) conn sess s)
  unfolding read_loop
  round-Ends fuel sess s again sess' s' n r h o kept rest =
      let (flow, sess'', s'', e, h', o', kept') = rest refl in
      (flow, sess'', s'', rw (n, r, read_loop) e, h', o', (kept'.0 ∙ kept.0, kept'.1 ∙ kept.1))
  round-Ends fuel sess s stop sess' s' n r h o kept rest =
      (stop, sess', s', rw (n, r, read_loop) refl, h, o, kept)
  round-Ends fuel sess s (returns err) sess' s' n r h o kept rest =
      (returns err, sess', s', rw (n, r, read_loop) refl, h, o, kept)

  -- A round, and the rounds behind it if the loop goes on.
  loop_step :
      (fuel : ℕ) (sess : Session) (s : S) (flow : Flow) (sess' : Session) (s' : S)
      → read_round env conn sess s ≡ some (flow, sess', s')
      → P s
      → P s'
      → sess.parser.offset ≡ 0
      → sess'.parser.offset ≡ 0
      → Same sess sess'
      → (goes_on flow ≡ true → Ends sess' (read_loop env fuel conn sess' s'))
      → Ends sess (read_loop env (suc fuel) conn sess s)
  unfolding read_loop
  loop_step fuel sess s flow sess' s' r h h' o o' kept rest =
      elim (Bool-cases (length sess.parser.input == 0)) [
        | inl y ↦ (stop, sess, s, rw y refl, h, o, (refl, refl))
        | inr n ↦ round-Ends fuel sess s flow sess' s' n r h' o' kept rest
      ]

  -- Induction on the rounds that are left.
  read_loop_total :
      (fuel : ℕ) (sess : Session) (s : S)
      → Keeps env conn P
      → P s
      → sess.parser.offset ≡ 0
      → IsReset sess.parser
      → length sess.parser.input < fuel
      → Ends sess (read_loop env fuel conn sess s)
  read_loop_total zero sess s k h o at l = absurd (omega arith)
  read_loop_total (suc fuel) sess s k h o at l =
      let (flow, sess', s', r, h', o', le, reset, less, kept) =
        read_round_total env conn P sess s k h o in
      loop_step fuel sess s flow sess' s' r h h' o o' kept (λ y.
        read_loop_total fuel sess' s' k h' o' (reset y) (let short = less y at in omega arith))

  -- The loop with the fuel of `OnClientRead` ends, whatever has been read and parsed before.
  read_all_total :
      (sess : Session) (s : S)
      → Keeps env conn P
      → P s
      → sess.parser.offset ≡ 0
      → Ends sess (read_all env conn sess s)
  read_all_total sess s k h o =
      let fuel = length sess.parser.input + 1 in
      let (flow, sess', s', r, h', o', le, reset, _, kept) =
        read_round_total env conn P sess s k h o in
      let more : suc fuel ≡ length sess.parser.input + 2 = omega arith in
      subst (λ n. Ends sess (read_loop env n conn sess s)) more
        (loop_step fuel sess s flow sess' s' r h h' o o' kept
          (λ y. read_loop_total fuel sess' s' k h' o' (reset y) (omega (arith, le))))

  make_room_kept :
      (min_size : ℕ) (grown : Option ℕ) (sess : Session)
      → ((make_room env min_size grown sess).1.parser.offset ≡ sess.parser.offset)
        × Same sess (make_room env min_size grown sess).1
  unfolding make_room
  make_room_kept min_size grown sess = elim (Bool-cases (ltb sess.room min_size)) [
    | inl y ↦ rw y (refl, (refl, refl))
    | inr n ↦ rw n (refl, (refl, refl))
  ]

  -- What `OnClientRead` comes back with.
  abbrev pub Returns : Session → Option (Error × Session × S) → Type 0
  Returns sess r =
      (err : Error) × (sess' : Session) × (s' : S) × (r ≡ some (err, sess', s'))
      × P s'
      × (sess'.parser.offset ≡ 0)
      × Same sess sess'

  finish-Ends :
      (min_size : ℕ) (grown : Option ℕ) (sess : Session) (r : Option (Flow × Session × S))
      → Ends sess r
      → Returns sess (finish env min_size grown r)
  unfolding finish
  finish-Ends min_size grown sess r (again, sess', s, e, h, o, kept) =
      let q : Error × Session = make_room env min_size grown sess' in
      let (same, kept') = make_room_kept min_size grown sess' in
      (q.0, q.1, s, rw e refl, h, same ∙ o, (kept'.0 ∙ kept.0, kept'.1 ∙ kept.1))
  finish-Ends min_size grown sess r (stop, sess', s, e, h, o, kept) =
      let q : Error × Session = make_room env min_size grown sess' in
      let (same, kept') = make_room_kept min_size grown sess' in
      (q.0, q.1, s, rw e refl, h, same ∙ o, (kept'.0 ∙ kept.0, kept'.1 ∙ kept.1))
  finish-Ends min_size grown sess r (returns err, sess', s, e, h, o, kept) =
      (err, sess', s, rw e refl, h, o, kept)

  submitted :
      (sess : Session) (s : S) (min_size : ℕ) (grown : Option ℕ)
      → Keeps env conn P
      → sess.parser.offset ≡ 0
      → Cmd.is_empty sess.current_cmd ≡ false
      → (flow : Flow) (c : Cmd) (s' : S)
      → submit env conn sess s ≡ some (flow, record sess { current_cmd = c }, s')
      → P s'
      → Returns sess (on_client_read env min_size grown conn sess s)
  unfolding on_client_read
  submitted sess s min_size grown k o n again c s' e h =
      let sess' : Session = record sess { current_cmd = c } in
      rw (n, e, on_client_read)
        (finish-Ends min_size grown sess' (read_all env conn sess' s')
          (read_all_total sess' s' k h o))
  submitted sess s min_size grown k o n stop c s' e h =
      let sess' : Session = record sess { current_cmd = c } in
      rw (n, e, on_client_read)
        (finish-Ends min_size grown sess' (read_all env conn sess' s')
          (read_all_total sess' s' k h o))
  submitted sess s min_size grown k o n (returns err) c s' e h =
      (err, record sess { current_cmd = c }, s', rw (n, e, on_client_read) refl, h, o, (refl, refl))

  -- `OnClientRead` comes back on any input, in any state of the parser between two calls and with any
  -- request held, if what it calls comes back: it has no fault and needs no more rounds than it
  -- is given. It keeps every property of the surroundings that what it calls keeps, and the identity
  -- and the connection of the session, and leaves the reader at the start of the input again, so that
  -- the next call comes back too.
  pub on_client_read_total :
      (sess : Session) (s : S) (min_size : ℕ) (grown : Option ℕ)
      → Keeps env conn P
      → P s
      → sess.parser.offset ≡ 0
      → Returns sess (on_client_read env min_size grown conn sess s)
  unfolding on_client_read
  on_client_read_total sess s min_size grown k h o =
      elim (Bool-cases (Cmd.is_empty sess.current_cmd)) [
        | inl y ↦ rw y (
            finish-Ends min_size grown sess (read_all env conn sess s)
              (read_all_total sess s k h o))
        | inr n ↦
            let (flow, c, s', e, h') = submit_total env conn P sess s k h in
            submitted sess s min_size grown k o n flow c s' e h'
      ]
