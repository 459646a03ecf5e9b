-- ===== src/Proxy/Alone.antt =====
-- upstream.cpp and connections.cpp: the program with one connection, and an upstream that nobody waits for.
use redisproxy.Base.{
  ℕ, ◌^◌, ◌<◌, ◌≡◌, ◌∙◌, ap, refl, sym, true, false, Option, none, some, [], ◌==◌, Bool-cases,
  Option-cases, inl, inr, if◌then◌else◌,
}
use mathlib.Core.Bool.{false≢true}
use mathlib.Core.Path.{subst}
use mathlib.Core.Option.{some-ne-none, some-injective}
use redisproxy.Base.Int.{ℤ}
use redisproxy.Error.{ok, is_none}
use redisproxy.Mem.{Ptr}
use redisproxy.Event
use redisproxy.Event.{Epoll, Event, no_events, attach}
use redisproxy.Socket
use redisproxy.Socket.{
  Sockets, Options, Handle, opened, refused, open_socket, connect_calls, run_calls,
}
use redisproxy.Recycle
use redisproxy.Recycle.{Recycle}
use redisproxy.Recycle.Valid.{IsValid, create-IsValid}
use redisproxy.Recycle.Fifo.{contents}
use redisproxy.Conn
use redisproxy.Conn.{Connection, Net, no_flags, at}
use redisproxy.Conn.Laws.{InOrder, InOrder-moved, held, held-at, load_step, events_of}
use redisproxy.Conn.Reading.{IsAlike, IsListed-alike}
use redisproxy.Upstream.{Upstream, Pair, no_pair}
use redisproxy.Proxy.{Owner, client, server, Sessions, State, on_read_event, on_closed_event}
use redisproxy.Proxy.Starting.{no_sessions, at_rest}
use redisproxy.Proxy.Sound.{Awaited, Live, conn_of, IsSound, Steady}

module _ {E : Epoll} (K : Sockets E) (opt : Options) (resolved : Option ℤ) where
  pub connect_events :
      (s : E.State) → (Socket.connect K opt resolved Event.fresh s).1.events ≡ no_events
  unfolding Socket.connect open_socket attach
  connect_events s = elim (Option-cases resolved) [
    | inr (rv, e) ↦ rw e refl
    | inl e ↦ rw e (by_handle (K.socket s).0 refl)
  ]
    where
      by_handle :
          (handle : Handle)
          → (K.socket s).0 ≡ handle
          → (open_socket K
              (connect_calls opt)
              (λ fd e'. record e' { fd = some fd })
              Event.fresh
              s).1.events
            ≡ no_events
      by_handle (refused n) h = rw (h, open_socket) refl
      by_handle (opened fd) h =
          elim (Bool-cases (is_none (run_calls K (connect_calls opt) fd (K.socket s).1).0)) [
            | inl y ↦ rw (h, y, open_socket, attach) refl
            | inr n ↦ rw (h, n, open_socket) refl
          ]

  -- The program with one connection, that asks for nothing.
  abbrev pub alone : Ptr → Connection Owner → E.State → State K opt resolved
  alone p c s = record (at_rest K opt resolved s) { conns = at (λ q. none) p (some c) }

  pub alone-InOrder :
      (p : Ptr) (c : Connection Owner) (s : E.State)
      → c.event.events.out_bit ≡ false
      → InOrder (alone p c s)
  alone-InOrder p c s h = record {
    below = tt;
    once = λ q. sym (ap (λ b. if b then 1 else 0) (off q));
    at = λ q on. absurd (false≢true (sym (off q) ∙ on));
  }
    where
      off : (q : Ptr) → (events_of (alone p c s).conns q).events.out_bit ≡ false
      off q = elim (Bool-cases (p == q)) [
        | inl y ↦ rw (y, events_of) h
        | inr n ↦ rw (n, events_of) refl
      ]

  -- A connection that no session reads from.
  abbrev pub NoClient : State K opt resolved → Type 0
  NoClient net = (q r : Ptr) → (held net.conns q ≡ some (some (client r))) → ⊥

  pub no_contents :
      (n : ℕ) (q : Recycle (Pair Ptr))
      → 0 < n
      → n < 2 ^ 64
      → q ≡ Recycle.create no_pair n
      → contents no_pair q ≡ []
  no_contents n q pos_n small fresh =
      let z = (create-IsValid (no_pair {R = Ptr}) n pos_n small).1 in
      let nobody_asks : contents no_pair (Recycle.create (no_pair {R = Ptr}) n) ≡ [] = rw z refl in
      ap (λ (x : Recycle (Pair Ptr)). contents no_pair x) fresh ∙ nobody_asks

  -- The upstream that nobody waits for.
  pub unasked-IsSound :
      (n : ℕ) (p : Ptr) (u : Upstream Ptr) (net : State K opt resolved)
      → 0 < n
      → n < 2 ^ 64
      → u.server_conn ≡ some p
      → u.cmd_queue ≡ Recycle.create no_pair n
      → InOrder net
      → net.outer ≡ no_sessions K opt resolved
      → NoClient net
      → Live K opt resolved net p
      → IsSound K opt resolved u net
  unasked-IsSound n p u net pos_n small linked fresh ord out none_of l =
      let (valid, _) = create-IsValid (no_pair {R = Ptr}) n pos_n small in
      record {
        in_order = ord;
        valid = subst (λ (q : Recycle (Pair Ptr)). IsValid q) (sym fresh) valid;
        server_live = (p, linked, l);
        fine = λ r sess k. absurd (some-ne-none sess (sym k ∙ ap (λ (f : Sessions). f r) out));
        owned = λ q r h. absurd (none_of q r h);
        awaited =
            subst (Awaited u.auth_cmd net.outer) (sym (no_contents n u.cmd_queue pos_n small fresh))
              tt;
      }

  pub watched-Steady :
      (net : State K opt resolved) (p : Ptr)
      → InOrder net
      → Live K opt resolved net p
      → (net' : State K opt resolved) × (on_closed_event K opt resolved p net ≡ some (ok, net'))
        × Steady K opt resolved net net'
  unfolding on_closed_event
  watched-Steady net p v l =
      let (c, h) = conn_of K opt resolved net p l in
      let c' : Connection Owner = record c { watched = true } in
      let alike : IsAlike c.event (events_of net.conns p) = rw h (refl, refl) in
      (
        record net { conns = at net.conns p (some c') },
        load_step net p c _ h,
        (
          refl,
          held-at net.conns p c c' h refl,
          InOrder-moved net p c' net.writes
              (IsListed-alike (events_of net.conns) net.writes p c.event alike v),
        ),
      )

  pub reader_set :
      (net : State K opt resolved) (p : Ptr) (c : Connection Owner)
      → net.conns p ≡ some c
      → on_read_event K opt resolved server p net
        ≡ Conn.conn_readable E p true
            (record net { conns = at net.conns p (some (record c { reader = some server })) })
  unfolding on_read_event
  reader_set net p c h = load_step net p c _ h

  pub alone-NoClient :
      (p : Ptr) (c : Connection Owner) (s : E.State)
      → c.reader ≡ some server
      → NoClient (alone p c s)
  alone-NoClient p c s e q r h = elim (Bool-cases (p == q)) [
    | inl y ↦
        let mine : some c.reader ≡ some (some (client r)) = rw (y, held) at h in
        is_client (sym (some-injective _ _ (sym mine ∙ ap (λ x. some x) e)))
    | inr n ↦
        let gone : none ≡ some (some (client r)) = rw (n, held) at h in some-ne-none _ (sym gone)
  ]
    where
      is_client : some server ≡ some (client r) → ⊥
      is_client z = absurd (cc)
