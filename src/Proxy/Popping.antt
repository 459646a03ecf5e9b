-- ===== src/Proxy/Popping.antt =====
-- The replies to sessions: the answer to whoever waits first, and the invariant of the program.
use redisproxy.Base.{
  ℕ, ◌≡◌, ◌∙◌, ap, refl, sym, Bool, true, false, Option, none, some, List, [], ◌∷◌, Bytes, ◌==◌,
  Bool-cases, inl, inr,
}
use mathlib.Core.Bool.{false≢true}
use mathlib.Core.Path.{subst}
use redisproxy.Base.Int.{ℤ}
use redisproxy.Error.{Error, is_none}
use redisproxy.Mem.{Ptr}
use redisproxy.Event.{Epoll}
use redisproxy.Socket.{Sockets, Options}
use redisproxy.Recycle
use redisproxy.Recycle.{Recycle}
use redisproxy.Recycle.Valid.{IsValid, pop-IsValid}
use redisproxy.Recycle.Fifo.{contents, fifo_pop, pop_refines}
use redisproxy.Cmd.{Cmd}
use redisproxy.Cmd.Parser.{Parser}
use redisproxy.Conn.{no_flags}
use redisproxy.Conn.Laws.{InOrder}
use redisproxy.Upstream.{
  Upstream, Pair, Target, nobody, auth_reader, reader, no_pair, identity_of, deliver, answer,
  auth_on_server_write,
}
use redisproxy.Upstream.Auth.{auth_pair}
use redisproxy.Upstream.Total.{Keeps}
use redisproxy.Session
use redisproxy.Session.{Session}
use redisproxy.Proxy.{State, is_connected, server_env, session_write}
use redisproxy.Proxy.Sound.{
  Asks, AllAsk, Awaited, AllAsk-Awaited, Live, IsSound, Steady, Live-Steady, Steady-trans,
  IsSound-Steady, write_to_buffer-Steady, conn_readable-Steady,
}
use redisproxy.Proxy.Pushing.{is_connected-Live}

-- A pop of a valid ring fails, or takes its first element.
pop_first :
    (q : Recycle (Pair Ptr))
    → IsValid q
    → is_none (Recycle.pop q no_pair).0 ≡ true
    → contents no_pair q ≡ (Recycle.pop q no_pair).1 ∷ contents no_pair (Recycle.pop q no_pair).2
unfolding fifo_pop
pop_first q v h = from (contents no_pair q) (pop_refines no_pair no_pair v)
  where
    from :
        (xs : List (Pair Ptr))
        → (let (s, y, q') = Recycle.pop q no_pair in (s, y, contents no_pair q'))
          ≡ fifo_pop xs no_pair
        → xs ≡ (Recycle.pop q no_pair).1 ∷ contents no_pair (Recycle.pop q no_pair).2
    from [] r =
        let f : (Recycle.pop q no_pair).0 ≡ _ =
          ap (λ (t : Error × Pair Ptr × List (Pair Ptr)). t.0) r in
        absurd (false≢true (rw f at h))
    from (x ∷ xs) r = λ i. (sym r i).1 ∷ (sym r i).2

module _ {E : Epoll} (K : Sockets E) (opt : Options) (resolved : Option ℤ) where
  session_write-Steady :
      (r : Ptr) (bytes : Bytes) (sess : Session) (q : Ptr) (net : State K opt resolved)
      → net.outer r ≡ some sess
      → sess.client_conn ≡ some q
      → Live K opt resolved net q
      → InOrder net
      → (net' : State K opt resolved) × (session_write K opt resolved r bytes net ≡ some net')
        × Steady K opt resolved net net'
  unfolding Session.on_server_write
  session_write-Steady r bytes sess q net k c l v =
      let (b, on) = is_connected-Live K opt resolved net q l in
      elim (Bool-cases b) [
        | inl y ↦
            let on' : is_connected K opt resolved q net ≡ some true = rw y at on in
            let (_, net₁, w, t₁) = write_to_buffer-Steady K opt resolved net q bytes no_flags v l in
            let (_, net₂, d, t₂) =
              conn_readable-Steady K opt resolved net₁ q true t₁.2
                (Live-Steady K opt resolved net net₁ q t₁ l) in
            (
              net₂,
              rw (k, session_write) (simp (c, on', w, d, Session.on_server_write) refl),
              (t₂.0 ∙ t₁.0, λ p. t₂.1 p ∙ t₁.1 p, t₂.2),
            )
        | inr n ↦
            let off : is_connected K opt resolved q net ≡ some false = rw n at on in
            (
              net,
              rw (k, session_write) (simp (c, off, Session.on_server_write) refl),
              (refl, λ p. refl, v),
            )
      ]

  -- What an answer comes back with.
  abbrev Answered :
      Upstream Ptr → State K opt resolved → Option (Upstream Ptr × State K opt resolved) → Type 0
  Answered u net out =
      (u' : Upstream Ptr) × (net' : State K opt resolved) × (out ≡ some (u', net'))
      × IsSound K opt resolved u' net'
      × Steady K opt resolved net net'
      × (u'.parser ≡ u.parser)

  -- The upstream behind a pop.
  popped-IsSound :
      (u : Upstream Ptr) (net : State K opt resolved) (cmd : Option Cmd) (b : Bool)
      → IsSound K opt resolved u net
      → AllAsk net.outer (contents no_pair (Recycle.pop u.cmd_queue no_pair).2)
      → IsSound K opt resolved
          (record u { cmd_queue = (Recycle.pop u.cmd_queue no_pair).2; auth = b; auth_cmd = cmd })
          net
  popped-IsSound u net cmd b v a = record {
    in_order = v.in_order;
    valid = pop-IsValid no_pair v.valid;
    server_live = v.server_live;
    fine = v.fine;
    owned = v.owned;
    awaited = AllAsk-Awaited cmd net.outer _ a;
  }

  -- A session that waits is handed the reply, or has it dropped.
  answer-Asks :
      (id : ℕ) (t : Target Ptr) (bytes : Bytes) (u : Upstream Ptr) (net : State K opt resolved)
      → IsSound K opt resolved u net
      → Asks net.outer t
      → Answered u net
          (answer (server_env K opt resolved) (record { identity = id; target = t }) bytes u net)
  unfolding answer identity_of deliver
  answer-Asks id nobody bytes u net v a = absurd a
  answer-Asks id auth_reader bytes u net v a = absurd a
  answer-Asks id (reader r) bytes u net v (sess, k) =
      let (_, q, c, l) = v.fine r sess k in
      elim (Bool-cases (sess.id == id)) [
        | inl y ↦
            let (net', w, t) = session_write-Steady r bytes sess q net k c l v.in_order in
            (
              u,
              net',
              rw (k, answer, y) (rw (w, deliver) refl),
              IsSound-Steady K opt resolved u net net' t v,
              t,
              refl,
            )
        | inr n ↦ (u, net, rw (k, answer, n) refl, v, (refl, λ q. refl, v.in_order), refl)
      ]

  -- The upstream is handed the reply to its `auth`.
  answer_own :
      (cmd : Cmd) (bytes : Bytes) (u : Upstream Ptr) (net : State K opt resolved)
      → u.auth_cmd ≡ some cmd
      → ((b : Bool) → IsSound K opt resolved (record u { auth = b; auth_cmd = none }) net)
      → Answered u net (answer (server_env K opt resolved) auth_pair bytes u net)
  unfolding answer identity_of deliver auth_on_server_write
  answer_own cmd [] u net c v = (
    record u { auth = false; auth_cmd = none },
    net,
    simp (c, answer) refl,
    v false,
    (refl, λ q. refl, (v false).in_order),
    refl,
  )
  answer_own cmd (x ∷ bytes) u net c v = (
    record u { auth = x == b'+'; auth_cmd = none },
    net,
    simp (c, answer) refl,
    v (x == b'+'),
    (refl, λ q. refl, (v false).in_order),
    refl,
  )

  -- Whoever waits first.
  answer_first :
      (bytes : Bytes) (u : Upstream Ptr) (net : State K opt resolved)
      → IsSound K opt resolved u net
      → is_none (Recycle.pop u.cmd_queue no_pair).0 ≡ true
      → Answered u net (
          answer
            (server_env K opt resolved)
            (Recycle.pop u.cmd_queue no_pair).1
            bytes
            (record u { cmd_queue = (Recycle.pop u.cmd_queue no_pair).2 })
            net)
  answer_first bytes u net v h =
      let (_, pair, queue) = Recycle.pop u.cmd_queue no_pair in
      let w : Awaited u.auth_cmd net.outer (pair ∷ contents no_pair queue) =
        subst (Awaited u.auth_cmd net.outer) (pop_first u.cmd_queue v.valid h) v.awaited in
      let u₁ : Upstream Ptr = record u { cmd_queue = queue } in
      elim w.0 [
        | inl a ↦
            answer-Asks pair.identity pair.target bytes u₁ net
              (popped-IsSound u net u.auth_cmd u.auth v w.1) a
        | inr (cmd, c, own) ↦
            subst (λ x. Answered u net (answer (server_env K opt resolved) x bytes u₁ net))
              (sym own) (answer_own cmd bytes u₁ net c (λ b. popped-IsSound u net none b v w.1))
      ]

  -- What holds while the server is read, from `base` on.
  abbrev pub Server : State K opt resolved → Upstream Ptr → State K opt resolved → Type 0
  Server base u net = IsSound K opt resolved u net × Steady K opt resolved base net

  pub IsSound-parsed :
      (u : Upstream Ptr) (net : State K opt resolved) (parser : Parser) (resp : Bytes) (room : ℕ)
      → IsSound K opt resolved u net
      → IsSound K opt resolved (record u { parser = parser; resp_buffer = resp; room = room }) net
  IsSound-parsed u net parser resp room v = record {
    in_order = v.in_order;
    valid = v.valid;
    server_live = v.server_live;
    fine = v.fine;
    owned = v.owned;
    awaited = v.awaited;
  }

  pub server_env-Keeps :
      (base : State K opt resolved) → Keeps (server_env K opt resolved) (Server base)
  server_env-Keeps base = record {
    answers = λ u net bytes pair queue err h e z.
        let (v, b) = h in
        let e₀ = ap (λ (t : Error × Pair Ptr × Recycle (Pair Ptr)). t.0) e in
        let (u', net', r, v', t, same) = answer_first bytes u net v (ap is_none e₀ ∙ z) in
        (
          u',
          net',
          subst
              (λ (t : Error × Pair Ptr × Recycle (Pair Ptr)).
                answer (server_env K opt resolved) t.1 bytes (record u { cmd_queue = t.2 }) net
                ≡ some (u', net'))
              e r,
          (v', Steady-trans K opt resolved base net net' b t),
          same,
        );
    parses = λ u net parser resp h. (IsSound-parsed u net parser resp u.room h.0, h.1);
  }
