-- ===== src/Proxy/Started.antt =====
-- server.cpp and upstream.cpp: what the program is when its start has succeeded.
use redisproxy.Base.{
  ℕ, ◌^◌, ◌<◌, ◌≡◌, ◌∙◌, ap, refl, sym, Bool, true, false, Option, none, some, Bool-cases, inl, inr,
}
use mathlib.Core.Bool.{false≢true}
use redisproxy.Base.Int.{ℤ}
use redisproxy.Error.{Error, init_failed, not_implemented, is_none}
use redisproxy.Mem.{Ptr}
use redisproxy.Event
use redisproxy.Event.{Epoll, Event, no_events, attach}
use redisproxy.Socket
use redisproxy.Socket.{
  Sockets, Options, Handle, opened, refused, open_socket, connect_calls, run_calls,
}
use redisproxy.Conn
use redisproxy.Conn.{Connection, Net, no_flags, at}
use redisproxy.Conn.Laws.{held, at_self, at-at}
use redisproxy.Conn.Link.{reconnect}
use redisproxy.Upstream.{Upstream}
use redisproxy.Proxy.{Owner, server, State}
use redisproxy.Proxy.Starting.{Setup, Pool, at_rest, pool_init, server_init}
use redisproxy.Proxy.Sound.{IsSound}
use redisproxy.Proxy.Alone.{connect_events, alone}
use redisproxy.Proxy.Handlers.{init-Inits}

module _ {E : Epoll} (K : Sockets E) (opt : Options) (resolved : Option ℤ) where
  pool_init_total :
      (setup : Setup) (grown : Option ℕ) (p : Ptr) (s : E.State)
      → 0 < setup.conn_send_buffer_count
      → setup.conn_send_buffer_count < 2 ^ 64
      → (err : Error) × (pool : Pool K opt resolved) × (net : State K opt resolved) × (pool_init K
            opt resolved setup grown p
            (at_rest K opt resolved s)
          ≡ some (err, pool, net))
        × (is_none err ≡ true
            → (u : Upstream Ptr) × (pool ≡ some u)
              × IsSound K opt resolved u net
              × (u.parser.offset ≡ 0)
              × (held net.conns p ≡ some (some server)))
  unfolding pool_init reconnect
  pool_init_total setup grown p s pos_n small =
      let rest = at_rest K opt resolved s in
      elim (Bool-cases setup.cluster_mode) [
        | inl y ↦ (not_implemented, none, rest, rw (y, pool_init) refl, λ z. absurd (false≢true z))
        | inr n ↦
            let (err, e, s') = Socket.connect K opt resolved Event.fresh s in
            let c : Connection Owner = record (Conn.create {O = Owner}) {
              connected = true;
              event = e;
            } in
            let net₁ : State K opt resolved = record (alone K opt resolved p Conn.create s) {
              kernel = s';
              conns = at (alone K opt resolved p Conn.create s).conns p (some c);
            } in
            let same : net₁ ≡ alone K opt resolved p c s' =
              ap (λ conns. record (at_rest K opt resolved s') { conns = conns })
                (at-at (λ q. none) p (some Conn.create) (some c)) in
            let r : reconnect K opt resolved p (alone K opt resolved p Conn.create s)
                ≡ some (err, alone K opt resolved p c s') =
              rw (at_self (λ q. none) p (some (Conn.create {O = Owner})), reconnect)
                (ap (λ x. some (err, x)) same) in
            elim (Bool-cases (is_none err)) [
              | inr bad ↦ (
                err,
                none,
                alone K opt resolved p c s',
                rw (n, r, bad, pool_init) refl,
                λ z. absurd (false≢true (sym bad ∙ z)),
              )
              | inl good ↦
                  let off = ap (λ m. m.out_bit) (connect_events K opt resolved s) in
                  let (err', u, net, e', v) =
                    init-Inits K opt resolved setup grown p c s' pos_n small off in
                  (
                    err',
                    some u,
                    net,
                    simp (n, r, good, e', pool_init) refl,
                    λ z. let (w, o, mine) = v z in (u, refl, w, o, mine),
                  )
            ]
      ]

  -- `Server::Init` comes back, whatever the system answers, if `ConnSendBufferCount` gives the ring of
  -- waiting readers a place. Where it returns OK there is an upstream, the invariant of the program holds
  -- with its reader at the start of its input, as the first event asks, and the upstream reads from
  -- the new connection.
  pub server_init_total :
      (created : Bool) (listen_resolved : Option ℤ) (setup : Setup) (grown : Option ℕ) (p : Ptr)
      (s : E.State)
      → 0 < setup.conn_send_buffer_count
      → setup.conn_send_buffer_count < 2 ^ 64
      → (err : Error) × (listener : Event) × (pool : Pool K opt resolved) × (net : State K opt
          resolved)
        × (server_init K opt resolved created listen_resolved setup grown p s
            ≡ some (err, listener, pool, net))
        × (is_none err ≡ true
            → (u : Upstream Ptr) × (pool ≡ some u)
              × IsSound K opt resolved u net
              × (u.parser.offset ≡ 0)
              × (held net.conns p ≡ some (some server)))
  unfolding server_init
  server_init_total false listen_resolved setup grown p s pos_n small =
      (init_failed, Event.fresh, none, at_rest K opt resolved s, refl, λ z. absurd (false≢true z))
  server_init_total true listen_resolved setup grown p s pos_n small =
      let (err, listener, s') = Socket.listen K opt listen_resolved Event.fresh s in
      elim (Bool-cases (is_none err)) [
        | inl y ↦
            let (err', pool, net, e, v) = pool_init_total setup grown p s' pos_n small in
            (err', listener, pool, net, rw (y, e, server_init) refl, v)
        | inr n ↦ (
          err,
          listener,
          none,
          at_rest K opt resolved s',
          rw (n, server_init) refl,
          λ z. absurd (false≢true (sym n ∙ z)),
        )
      ]
