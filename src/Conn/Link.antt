-- ===== src/Conn/Link.antt =====
-- connections.cpp: `Connection::Connect` and `Reconnect`, and what becomes of a connection to the server
-- when it is closed.
use redisproxy.Base.{
  ℕ, ◌≡◌, ◌≢◌, ◌∙◌, ap, refl, Bool, true, false, ◌||◌, Option, none, some, ==_refl, Option-cases,
  inl, inr,
}
use redisproxy.Base.Int.{ℤ, pos}
use redisproxy.Error.{Error, is_none}
use redisproxy.Mem.{Ptr}
use redisproxy.Event
use redisproxy.Event.{Epoll, Event, no_events, ctl_del, attach}
use redisproxy.Socket
use redisproxy.Socket.{Sockets, Options}
use redisproxy.Socket.Opening.{AsBefore, Opens, connect-Opens}
use redisproxy.Conn.{Connection, Net, M, at, ◌>>=◌, ◌>>◌, delete, on_closed}
use redisproxy.Conn.Laws.{load_step, at_self}
use redisproxy.Conn.Shut.{if_true, with, delete_at}

remove_notify-AsBefore :
    {E : Epoll} (K : Sockets E) (e : Event) (s : E.State)
    → AsBefore K s (Event.remove_notify E e s).2
unfolding Event.remove_notify
remove_notify-AsBefore {E} K e s q = elim (Option-cases e.fd) [
  | inl h ↦ simp (h, Event.remove_notify) refl
  | inr (fd, h) ↦ elim (Option-cases (E.epoll_ctl s ctl_del fd no_events).0) [
    | inl o ↦ simp (h, o, Event.remove_notify) (K.ctl_open s ctl_del fd q no_events)
    | inr (n, o) ↦ simp (h, o, Event.remove_notify) (K.ctl_open s ctl_del fd q no_events)
  ]
]

opens :
    {E : Epoll} (K : Sockets E) (setup : ℕ → Event → Event) (e : Event) (s : E.State)
    (out : Error × Event × E.State)
    → Opens K setup e s out
    → is_none out.0 ≡ true
    → (fd : ℕ) × (K.is_open s fd ≡ false) × (K.is_open out.2 fd ≡ true)
opens K setup e s out (inl (bad, _, _)) good = absurd (cc)
opens K setup e s out (inr (fd, _, _, (new, more))) good =
    (fd, new, more fd ∙ rw (==_refl fd) (or_true (K.is_open s fd)))
  where
    or_true : (b : Bool) → b || true ≡ true
    or_true true = refl
    or_true false = refl

module _ {E : Epoll} (K : Sockets E) {O S : Type 0} where
  -- `Connect( addr )` and `Reconnect()`; `resolved` says what `GetAddrInfo` makes of the address.
  unfoldable pub reconnect : Options → Option ℤ → Ptr → M E.State O S Error
  reconnect opt resolved p net = elim (net.conns p) [
    | none ↦ none
    | some c ↦
        let (err, e, s) = Socket.connect K opt resolved c.event net.kernel in
        some (
          err,
          record net {
            kernel = s;
            conns = at net.conns p (some (record c { connected = true; event = e }));
          },
        )
  ]

  delete-AsBefore :
      (net : Net E.State O S) (p : Ptr) (c : Connection O)
      → net.conns p ≡ some c
      → (s : E.State) × (delete E p net ≡ some (tt, with E net p none s)) × AsBefore K net.kernel s
  delete-AsBefore net p c h =
      let (s, r, from) = delete_at E net p c h in
      (
        s,
        r,
        λ q. elim from [
          | inl e ↦ ap (λ t. K.is_open t q) e
          | inr e ↦ ap (λ t. K.is_open t q) e ∙ remove_notify-AsBefore K c.event net.kernel q
        ],
      )

  -- A connection whose end is watched by its reconnection, as the one to the server is: if
  -- `Reconnect` succeeds, and `GetAddrInfo` never fails with status 0, `OnClosed` deletes the connection all the same, and the descriptor that
  -- `Reconnect` has just opened stays open without a connection that has it.
  pub on_closed-leaks :
      (opt : Options) (resolved : Option ℤ) (net : Net E.State O S) (p : Ptr) (c : Connection O)
      → net.conns p ≡ some c
      → c.watched ≡ true
      → resolved ≢ some (pos 0)
      → is_none (Socket.connect K opt resolved c.event net.kernel).0 ≡ true
      → (fd : ℕ) × (net' : Net E.State O S) × (on_closed E (reconnect opt resolved) p net
          ≡ some (tt, net'))
        × (net'.conns p ≡ none)
        × (K.is_open net.kernel fd ≡ false)
        × (K.is_open net'.kernel fd ≡ true)
  unfolding on_closed reconnect
  on_closed-leaks opt resolved net p c h watched found good =
      let out = Socket.connect K opt resolved c.event net.kernel in
      let c₁ : Connection O = record c { connected = false } in
      let net₁ = with E net p (some c₁) net.kernel in
      let c₂ : Connection O = record c { connected = true; event = out.1 } in
      let net₂ = with E net₁ p (some c₂) out.2 in
      let r₁ : reconnect opt resolved p net₁ ≡ some (out.0, net₂) =
        rw (at_self net.conns p (some c₁), reconnect) refl in
      let (s, r, same) = delete-AsBefore net₂ p c₂ (at_self net₁.conns p (some c₂)) in
      let (fd, new, more) =
        opens K (λ fd e. record e { fd = some fd }) c.event net.kernel out
          (connect-Opens K opt resolved c.event net.kernel found) good in
      (
        fd,
        with E net₂ p none s,
        load_step net p c _ h
            ∙ ap (λ (act : M E.State O S (Unit {0})). (act >> delete E p) net₁)
                (if_true _ _ c.watched watched)
            ∙ rw (r₁, ◌>>=◌) r,
        at_self net₂.conns p none,
        new,
        same fd ∙ more,
      )
