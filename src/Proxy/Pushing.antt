-- ===== src/Proxy/Pushing.antt =====
-- The requests of sessions: what a session calls, and the invariant of the program.
use redisproxy.Base.{
  ℕ, ◌-◌, ◌≡◌, ◌∙◌, ap, refl, sym, Bool, true, false, Option, some, List, [], ◌∷◌, ◌++◌, length,
  ◌==◌, Bool-cases, inl, inr, if◌then◌else◌,
}
use mathlib.Core.Bool.{false≢true}
use mathlib.Core.Path.{subst}
use redisproxy.Base.Int.{ℤ}
use redisproxy.Error.{Error, full, try_again, is_none, equal}
use redisproxy.Mem.{Ptr}
use redisproxy.Event.{Epoll}
use redisproxy.Socket.{Sockets, Options}
use redisproxy.Recycle
use redisproxy.Recycle.{Recycle}
use redisproxy.Recycle.Valid.{IsValid, push-IsValid}
use redisproxy.Recycle.Fifo.{contents, fifo_push, push_refines}
use redisproxy.Cmd.{Cmd, format_resp2}
use redisproxy.Cmd.Parser.{Parser}
use redisproxy.Conn.{no_flags}
use redisproxy.Upstream.{
  Upstream, Pair, reader, no_pair, identity_of, is_acceptable, enqueue, push_request,
  pool_push_request,
}
use redisproxy.Session.Rounds.{Keeps}
use redisproxy.Proxy.{State, is_connected, session_env, server_env, pushed, aside}
use redisproxy.Proxy.Sound.{
  Known, Awaited, Awaited-behind, Live, IsSound, Steady, Live-Steady, Known-Steady, Steady-trans,
  IsSound-Steady, conn_of, write_to_buffer-Steady, conn_readable-Steady,
}

-- A push on a valid ring fails, or puts its element last.
pub push_last :
    (q : Recycle (Pair Ptr)) (x : Pair Ptr)
    → IsValid q
    → is_none (Recycle.push q x).0 ≡ true
    → contents no_pair (Recycle.push q x).1 ≡ contents no_pair q ++ x ∷ []
unfolding fifo_push
push_last q x v h =
    let r = push_refines no_pair x v in
    elim (Bool-cases (length (contents no_pair q) == length q.holder - 1)) [
      | inl y ↦
          let f : (Recycle.push q x).0 ≡ full =
            ap (λ (t : Error × List (Pair Ptr)). t.0) (rw (y, fifo_push) at r) in
          absurd (false≢true (rw f at h))
      | inr n ↦ ap (λ (t : Error × List (Pair Ptr)). t.1) (rw (n, fifo_push) at r)
    ]

module _ {E : Epoll} (K : Sockets E) (opt : Options) (resolved : Option ℤ) where
  pub is_connected-Live :
      (net : State K opt resolved) (p : Ptr)
      → Live K opt resolved net p
      → (b : Bool) × (is_connected K opt resolved p net ≡ some b)
  is_connected-Live net p l =
      let (c, h) = conn_of K opt resolved net p l in (c.connected, rw (h, is_connected) refl)

  -- A push by a session that is there comes back, and all is as sound as before.
  enqueue-IsSound :
      (p : Ptr) (cmd : Cmd) (r : Ptr) (id : ℕ) (u : Upstream Ptr) (net : State K opt resolved)
      → IsSound K opt resolved u net
      → Live K opt resolved net p
      → Known net.outer r
      → (err : Error) × (u' : Upstream Ptr) × (net' : State K opt resolved) × (enqueue
            (server_env K opt resolved)
            p
            cmd
            (reader r)
            id
            u
            net
          ≡ some (err, u', net'))
        × IsSound K opt resolved u' net'
        × Steady K opt resolved net net'
        × (u'.parser ≡ u.parser)
  unfolding enqueue
  enqueue-IsSound p cmd r id u net v l k =
      let x : Pair Ptr = record { identity = id; target = reader r } in
      let (err, q) = Recycle.push u.cmd_queue x in
      elim (Bool-cases (is_none err)) [
        | inl y ↦
            let (err', net', w, t) =
              write_to_buffer-Steady K opt resolved net p (format_resp2 cmd []).1 no_flags
                v.in_order l in
            let u' : Upstream Ptr = record u { cmd_queue = q } in
            let v' : IsSound K opt resolved u' net = record {
              in_order = v.in_order;
              valid = push-IsValid x v.valid;
              server_live = v.server_live;
              fine = v.fine;
              owned = v.owned;
              awaited =
                  subst (Awaited u.auth_cmd net.outer) (sym (push_last u.cmd_queue x v.valid y)) (
                    Awaited-behind u.auth_cmd net.outer (contents no_pair u.cmd_queue) x v.awaited
                      k);
            } in
            (
              err',
              u',
              net',
              rw (y, w, enqueue) refl,
              IsSound-Steady K opt resolved u' net net' t v',
              t,
              refl,
            )
        | inr n ↦ (
          if equal err full then try_again else err,
          u,
          net,
          rw (n, enqueue) refl,
          v,
          (refl, λ q. refl, v.in_order),
          refl,
        )
      ]

  -- What a push by a session comes back with.
  abbrev Pushed :
      Upstream Ptr
      → State K opt resolved
      → Option (Error × Upstream Ptr × State K opt resolved)
      → Type 0
  Pushed u net out =
      (err : Error) × (u' : Upstream Ptr) × (net' : State K opt resolved) × (out
        ≡ some (err, u', net'))
      × IsSound K opt resolved u' net'
      × Steady K opt resolved net net'
      × (u'.parser ≡ u.parser)

  push_request-IsSound :
      (cmd : Cmd) (r : Ptr) (u : Upstream Ptr) (net : State K opt resolved)
      → IsSound K opt resolved u net
      → Known net.outer r
      → Pushed u net (push_request (server_env K opt resolved) cmd (reader r) u net)
  unfolding push_request identity_of
  push_request-IsSound cmd r u net v (sess, k) =
      let env = server_env K opt resolved in
      let (p, e, l) = v.server_live in
      let (b, on) = is_connected-Live net p l in
      let id : identity_of env (reader r) u net ≡ some sess.id = rw k refl in
      elim (Bool-cases b) [
        | inl y ↦
            let on' : is_connected K opt resolved p net ≡ some true = rw y at on in
            let (err, u', net', r', v', t, same) =
              enqueue-IsSound p cmd r sess.id u net v l (sess, k) in
            (err, u', net', rw (e, on', id, push_request) r', v', t, same)
        | inr n ↦
            let off : is_connected K opt resolved p net ≡ some false = rw n at on in
            (
              try_again,
              u,
              net,
              simp (e, off, push_request) refl,
              v,
              (refl, λ q. refl, v.in_order),
              refl,
            )
      ]

  pool_push_request-IsSound :
      (cmd : Cmd) (r : Ptr) (u : Upstream Ptr) (net : State K opt resolved)
      → IsSound K opt resolved u net
      → Known net.outer r
      → Pushed u net (pool_push_request (server_env K opt resolved) false cmd (reader r) u net)
  unfolding pool_push_request is_acceptable
  pool_push_request-IsSound cmd r u net v k =
      let (p, e, l) = v.server_live in
      let (b, on) = is_connected-Live net p l in
      let a : is_acceptable (server_env K opt resolved) u net ≡ some (if b then u.auth else false) =
        rw (e, on, is_acceptable) refl in
      elim (Bool-cases (if b then u.auth else false)) [
        | inl y ↦
            let (err, u', net', r', v', t, same) = push_request-IsSound cmd r u net v k in
            (err, u', net', rw (a, y, pool_push_request) r', v', t, same)
        | inr n ↦ (
          try_again,
          u,
          net,
          rw (a, n, pool_push_request) refl,
          v,
          (refl, λ q. refl, v.in_order),
          refl,
        )
      ]

  -- What holds while a session is served, from `base` on.
  abbrev pub Client : State K opt resolved → Upstream Ptr × State K opt resolved → Type 0
  Client base w =
      IsSound K opt resolved w.0 w.1 × (w.0.parser.offset ≡ 0) × Steady K opt resolved base w.1

  Client-Steady :
      (base : State K opt resolved) (u : Upstream Ptr) (net net' : State K opt resolved)
      → Steady K opt resolved net net'
      → Client base (u, net)
      → Client base (u, net')
  Client-Steady base u net net' t (v, o, b) = (
    IsSound-Steady K opt resolved u net net' t v,
    o,
    Steady-trans K opt resolved base net net' b t,
  )

  pushed-Client :
      (base : State K opt resolved) (r : Ptr) (cmd : Cmd) (w : Upstream Ptr × State K opt resolved)
      → Known base.outer r
      → Client base w
      → (err : Error) × (w' : Upstream Ptr × State K opt resolved) × (pushed K opt resolved r cmd w
          ≡ some (err, w'))
        × Client base w'
  pushed-Client base r cmd (u, net) k (v, o, b) =
      let (err, u', net', e, v', t, same) =
        pool_push_request-IsSound cmd r u net v (Known-Steady K opt resolved base net b r k) in
      (
        err,
        (u', net'),
        rw (e, pushed) refl,
        (v', ap (λ (q : Parser). q.offset) same ∙ o, Steady-trans K opt resolved base net net' b t),
      )

  pub session_env-Keeps :
      (base : State K opt resolved) (r p : Ptr)
      → Known base.outer r
      → Live K opt resolved base p
      → Keeps (session_env K opt resolved r) p (Client base)
  session_env-Keeps base r p k l = record {
    pushes = λ cmd w h. pushed-Client base r cmd w k h;
    reads = λ flag w h.
        let (v, o, b) = h in
        let (err, net', e, t) =
          conn_readable-Steady K opt resolved w.1 p flag v.in_order
            (Live-Steady K opt resolved base w.1 p b l) in
        (err, (w.0, net'), rw (e, aside) refl, Client-Steady base w.0 w.1 net' t h);
    writes = λ bytes flags w h.
        let (v, o, b) = h in
        let (err, net', e, t) =
          write_to_buffer-Steady K opt resolved w.1 p bytes flags v.in_order
            (Live-Steady K opt resolved base w.1 p b l) in
        (err, (w.0, net'), rw (e, aside) refl, Client-Steady base w.0 w.1 net' t h);
  }
