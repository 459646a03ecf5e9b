-- ===== src/Proxy/Handled.antt =====
-- session.cpp and upstream.cpp: the handlers of events, on all that may be in the buffers.
use redisproxy.Base.{
  ◌-◌, ◌≡◌, ◌∙◌, ap, refl, sym, Bool, Option, some, Bytes, length, ◌==◌, Bool-cases, inl, inr,
}
use mathlib.Core.Option.{some-injective}
use redisproxy.Base.Int.{ℤ}
use redisproxy.Error.{Error}
use redisproxy.Mem.{Ptr}
use redisproxy.Event.{Epoll}
use redisproxy.Socket.{Sockets, Options}
use redisproxy.Conn
use redisproxy.Conn.{Connection, Net, eagain}
use redisproxy.Conn.Laws.{held}
use redisproxy.Upstream.{Upstream}
use redisproxy.Upstream.Total.{on_server_read_total}
use redisproxy.Session.{Session}
use redisproxy.Session.Total.{on_client_read_total}
use redisproxy.Proxy.{Owner, client, server, Sessions, State, session_env, server_env, aside}
use redisproxy.Proxy.Accepting.{put}
use redisproxy.Proxy.Reading.{Room, World, filled, append_size, read_event}
use redisproxy.Proxy.Sound.{
  Known, Awaited-Stay, Live, IsSound, conn_readable-Steady, IsSound-Steady,
}
use redisproxy.Proxy.Pushing.{session_env-Keeps}
use redisproxy.Proxy.Popping.{server_env-Keeps, IsSound-parsed}

module _ {E : Epoll} (K : Sockets E) (opt : Options) (resolved : Option ℤ) (sizes : Room) where
  -- The program is sound, and its readers are at the start of their inputs.
  abbrev pub IsReady : World K opt resolved sizes → Type 0
  IsReady w = IsSound K opt resolved w.0 w.1 × (w.0.parser.offset ≡ 0)

  -- The program is ready again, and no connection has changed its owner or is deleted.
  abbrev pub Serves : World K opt resolved sizes → World K opt resolved sizes → Type 0
  Serves w w' = IsReady w' × ((q : Ptr) → held w'.1.conns q ≡ held w.1.conns q)

  -- A session that is put back where it was.
  put-IsSound :
      (u : Upstream Ptr) (net : State K opt resolved) (r : Ptr) (sess sess' : Session)
      → IsSound K opt resolved u net
      → net.outer r ≡ some sess
      → sess'.parser.offset ≡ 0
      → sess'.client_conn ≡ sess.client_conn
      → IsSound K opt resolved u (record net { outer = put net.outer r sess' })
  put-IsSound u net r sess sess' v k o c =
      let (_, q, at_q, l) = v.fine r sess k in
      record {
        in_order = v.in_order;
        valid = v.valid;
        server_live = v.server_live;
        fine = λ r' x h. elim (Bool-cases (r == r')) [
          | inl y ↦
              let same : sess' ≡ x = some-injective sess' x (rw (y, put) at h) in
              (
                ap (λ (s : Session). s.parser.offset) (sym same) ∙ o,
                q,
                ap (λ (s : Session). s.client_conn) (sym same) ∙ c ∙ at_q,
                l,
              )
          | inr n ↦ v.fine r' x (rw (n, put) at h)
        ];
        owned = λ p r' h. stay r' (v.owned p r' h);
        awaited = Awaited-Stay u.auth_cmd net.outer (put net.outer r sess') _ stay v.awaited;
      }
    where
      stay : (r' : Ptr) → Known net.outer r' → Known (put net.outer r sess') r'
      stay r' (x, h) = elim (Bool-cases (r == r')) [
        | inl y ↦ (sess', rw (y, put) refl)
        | inr n ↦ (x, rw (n, put) h)
      ]

  -- The handler of a session or of the server, on all that it may have in its buffer.
  pub read_event-Serves :
      (p : Ptr) (owner : Owner) (w : World K opt resolved sizes)
      → IsReady w
      → held w.1.conns p ≡ some (some owner)
      → (w' : World K opt resolved sizes) × (read_event K opt resolved sizes p owner w ≡ some w')
        × Serves w w'
  unfolding read_event
  read_event-Serves p (client r) (u, net) (v, o) h =
      let (sess, k) = v.owned p r h in
      let (o', q, at_q, l) = v.fine r sess k in
      let (err, sess', (u', net'), e, (v', o'', t), z, (_, c)) =
        on_client_read_total (session_env K opt resolved r) p _ sess (u, net) sizes.client_min
          sizes.grown (session_env-Keeps K opt resolved net r p (sess, k) (some (client r), h))
          (v, o, (refl, λ q. refl, v.in_order)) o' in
      let k' : net'.outer r ≡ some sess = ap (λ (f : Sessions). f r) t.0 ∙ k in
      (
        (u', record net' { outer = put net'.outer r sess' }),
        rw (k, e, read_event) refl,
        ((put-IsSound u' net' r sess sess' v' k' z c, o''), t.1),
      )
  read_event-Serves p server (u, net) (v, o) h =
      let (err, u', net', e, (v', t), o') =
        on_server_read_total (server_env K opt resolved) _ u net sizes.server_min sizes.grown
          (server_env-Keeps K opt resolved net)
          (λ u s room g. (IsSound-parsed K opt resolved u s u.parser u.resp_buffer room g.0, g.1))
          (v, (refl, λ q. refl, v.in_order)) o in
      ((u', net'), rw (e, read_event) refl, ((v', o'), t.1))

  pub append_size-Serves :
      (p : Ptr) (owner : Owner) (bs : Bytes) (w : World K opt resolved sizes)
      → IsReady w
      → held w.1.conns p ≡ some (some owner)
      → Serves w (append_size K opt resolved sizes owner bs w)
  unfolding append_size
  append_size-Serves p (client r) bs (u, net) (v, o) h =
      let (sess, k) = v.owned p r h in
      let sess' : Session = record sess {
        parser = filled bs sess.parser;
        room = sess.room - length bs;
      } in
      rw (k, append_size)
        ((put-IsSound u net r sess sess' v k (v.fine r sess k).0 refl, o), λ q. refl)
  append_size-Serves p server bs (u, net) (v, o) h = (
    (
      IsSound-parsed K opt resolved u net (filled bs u.parser) u.resp_buffer (u.room - length bs) v,
      o,
    ),
    λ q. refl,
  )

  pub readable-Serves :
      (p : Ptr) (flag : Bool) (w : World K opt resolved sizes)
      → IsReady w
      → Live K opt resolved w.1 p
      → (err : Error) × (w' : World K opt resolved sizes) × (aside K opt resolved
            (Conn.conn_readable E p flag)
            w
          ≡ some (err, w'))
        × Serves w w'
  readable-Serves p flag (u, net) (v, o) l =
      let (err, net', e, t) = conn_readable-Steady K opt resolved net p flag v.in_order l in
      (err, (u, net'), rw (e, aside) refl, ((IsSound-Steady K opt resolved u net net' t v, o), t.1))
