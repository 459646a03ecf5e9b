-- ===== src/Proxy/Welcome.antt =====
-- netio.cpp, server.cpp and session.cpp: what a client that comes in finds.
use redisproxy.Base.{
  ℕ, ◌+◌, ◌%◌, ◌^◌, ◌≡◌, ◌∙◌, ap, refl, Bool, true, false, Option, none, some, List, ==_refl,
}
use redisproxy.Base.Int.{ℤ}
use redisproxy.Error.{ok, is_none}
use redisproxy.Mem.{Ptr}
use redisproxy.Buffer.View
use redisproxy.Event
use redisproxy.Event.{Epoll, Event, Mask, ctl_add, attach}
use redisproxy.Event.Interest.{reading}
use redisproxy.Socket.{Handle, opened, Sockets, Options, run_calls}
use redisproxy.Conn
use redisproxy.Conn.{Connection, Net, at}
use redisproxy.Conn.Laws.{InOrder, InOrder-moved, events_of, load_step, at_self, at-at}
use redisproxy.Conn.Reading.{IsAlike, IsListed-alike}
use redisproxy.Session
use redisproxy.Session.{Session}
use redisproxy.Proxy.{Owner, client, Sessions, State, on_read_event}
use redisproxy.Proxy.Deliver.{IsServed}
use redisproxy.Proxy.Accepting.{
  accepted, accept_calls, accept, attach_client, new_client_connection, create_connection, put,
}

-- The connection of a client: read by the session `r`, without a descriptor or with one.
abbrev pub newcomer : Ptr → Option ℕ → Bool → Connection Owner
newcomer r fd connected = record (Conn.create {O = Owner}) {
  event = record {
    fd = fd;
    events = record { in_bit = true; out_bit = false };
    write_list_pos = 0;
  };
  connected = connected;
  reader = some (client r);
}

module _ {E : Epoll} (K : Sockets E) (opt : Options) (resolved : Option ℤ) (r p : Ptr) where
  abbrev with : State K opt resolved → Connection Owner → State K opt resolved
  with net c = record net { conns = at net.conns p (some c) }

  twice : (net : State K opt resolved) (c d : Connection Owner) → with (with net c) d ≡ with net d
  twice net c d = ap (λ conns. record net { conns = conns }) (at-at net.conns p (some c) (some d))

  watched_first :
      (net : State K opt resolved)
      → on_read_event K opt resolved (client r) p (create_connection K opt resolved p net)
        ≡ some (ok, with net (newcomer r none false))
  unfolding on_read_event Conn.conn_readable Event.set_readable Event.operate_notify Event.notify
  watched_first net =
      let c₀ : Connection Owner = Conn.create in
      let c₁ : Connection Owner = record c₀ { reader = some (client r) } in
      load_step (with net c₀) p c₀ _ (at_self net.conns p (some c₀))
      ∙ rw (at_self (with net c₀).conns p (some c₁), Conn.conn_readable)
          (ap (λ n. some (ok, n)) (twice (with net c₀) c₁ (newcomer r none false) ∙ twice net c₀ _))

  -- The session of a client that has come in.
  abbrev pub hosted : ℕ → ℕ → Session
  hosted id room = record (Session.create id) { client_conn = some p; room = room }

  pub new_at :
      (net : State K opt resolved) (init_size counter : ℕ) (grown : Option ℕ)
      → (View.append_capacity grown 0 init_size).0 ≡ ok
      → let room = (View.append_capacity grown 0 init_size).1 in
        let id = (counter + 1) % 2 ^ 64 in
        let net' = with net (newcomer r none false) in
        new_client_connection K opt resolved init_size grown p r counter net
        ≡ some (ok, id, record net' { outer = put net.outer r (hosted id room) })
  unfolding new_client_connection Session.create_session Session.on_new_client_connection
  new_at net init_size counter grown h =
      rw (h, watched_first net, Session.on_new_client_connection, new_client_connection) refl

  pub attached_at :
      (net : State K opt resolved) (fd : ℕ) (out : Sessions)
      → (E.epoll_ctl net.kernel ctl_add fd (reading fd 0).events).0 ≡ none
      → let s = (E.epoll_ctl net.kernel ctl_add fd (reading fd 0).events).1 in
        attach_client K opt resolved p fd
          (record (with net (newcomer r none false)) { outer = out })
        ≡ some (ok, record (with net (newcomer r (some fd) true)) { kernel = s; outer = out })
  unfolding attach_client attach
  attached_at net fd out h =
      let s = (E.epoll_ctl net.kernel ctl_add fd (reading fd 0).events).1 in
      rw (at_self net.conns p (some (newcomer r none false)), h, attach_client)
        (ap (λ conns. some (ok, record net { kernel = s; outer = out; conns = conns }))
          (at-at net.conns p (some (newcomer r none false)) (some (newcomer r (some fd) true))))

  pub newcomer-InOrder :
      (net : State K opt resolved) (fd : ℕ)
      → InOrder net
      → net.conns p ≡ none
      → InOrder (with net (newcomer r (some fd) true))
  newcomer-InOrder net fd v h =
      let c = newcomer r (some fd) true in
      let alike : IsAlike c.event (events_of net.conns p) = rw h (refl, refl) in
      InOrder-moved net p c net.writes
        (IsListed-alike (events_of net.conns) net.writes p c.event alike v)

  -- `Accept`, where the system gives a descriptor, takes the calls on it, has memory for the input, and
  -- takes the descriptor into its set: the new session can be served through the new connection. It has
  -- the next identity, the connection has the descriptor and nothing to send, the session reads
  -- from it, and the system watches it for reading.
  pub accept-IsServed :
      (answers : List Handle) (init_size counter fd : ℕ) (grown : Option ℕ)
      (net : State K opt resolved)
      → InOrder net
      → net.conns p ≡ none
      → accepted answers ≡ some (opened fd)
      → is_none (run_calls K (accept_calls opt) fd net.kernel).0 ≡ true
      → (View.append_capacity grown 0 init_size).0 ≡ ok
      → (E.epoll_ctl
          (run_calls K (accept_calls opt) fd net.kernel).1
          ctl_add
          fd
          (reading fd 0).events).0
        ≡ none
      → (net' : State K opt resolved) × (own : Session) × (accept K opt resolved answers init_size
            grown p r counter net
          ≡ some (ok, (counter + 1) % 2 ^ 64, net'))
        × IsServed K opt resolved r p net' (newcomer r (some fd) true) own
        × (own.id ≡ (counter + 1) % 2 ^ 64)
        × (E.interest net'.kernel fd ≡ some (reading fd 0).events)
  unfolding accept
  accept-IsServed answers init_size counter fd grown net v new got calls room taken =
      let s = (run_calls K (accept_calls opt) fd net.kernel).1 in
      let net₁ : State K opt resolved = record net { kernel = s } in
      let own = hosted ((counter + 1) % 2 ^ 64) (View.append_capacity grown 0 init_size).1 in
      let out = put net.outer r own in
      let s' = (E.epoll_ctl s ctl_add fd (reading fd 0).events).1 in
      let net' : State K opt resolved = record (with net₁ (newcomer r (some fd) true)) {
        kernel = s';
        outer = out;
      } in
      (
        net',
        own,
        rw
            (
              got,
              calls,
              new_at net₁ init_size counter grown room,
              attached_at net₁ fd out taken,
              accept,
            )
            refl,
        record {
          in_order = newcomer-InOrder net fd v new;
          live = at_self net.conns p (some (newcomer r (some fd) true));
          connected = refl;
          known = rw (==_refl r) refl;
          linked = refl;
        },
        refl,
        E.succeeds s ctl_add fd (reading fd 0).events taken,
      )
