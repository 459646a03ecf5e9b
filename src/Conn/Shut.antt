-- ===== src/Conn/Shut.antt =====
-- netio.cpp and connections.cpp: how a connection is closed and deleted, and what stays of it.
use redisproxy.Base.{
  ℕ, suc, ◌≡◌, ◌<◌, ◌-◌, ◌∙◌, ap, refl, Bool, true, false, Option, none, some, length, arith, ◌==◌,
  lt→ltb, if◌then◌else◌, ◌⊎◌, inl, inr,
}
use redisproxy.Base.Int.{pos}
use redisproxy.Buffer.View
use redisproxy.Error.{Error, closed}
use redisproxy.Mem.{Ptr}
use redisproxy.Event
use redisproxy.Event.{Epoll, Event, Writes}
use redisproxy.Event.Listed.{listed}
use redisproxy.Conn.{
  Connection, Net, M, at, moved, ◌>>=◌, ◌>>◌, write_out, conn_write, after_write, on_writable,
  conn_remove_notify, delete, close_fd, on_closed, close_event,
}
use redisproxy.Conn.Window.{past}
use redisproxy.Conn.Laws.{event_of, InOrder, moved_to, load_step, at_self, at-at}

pub if_true {ℓ} : {A : Type ℓ} (x y : A) (b : Bool) → b ≡ true → (if b then x else y) ≡ x
if_true x y b h = rw h

if_false {ℓ} : {A : Type ℓ} (x y : A) (b : Bool) → b ≡ false → (if b then x else y) ≡ y
if_false x y b h = rw h

remove_fd : (E : Epoll) (e : Event) (s : E.State) → (Event.remove_notify E e s).1.fd ≡ e.fd
unfolding Event.remove_notify
remove_fd E e s = ground arith

module _ (E : Epoll) {O S : Type 0} where
  -- The program after the connection at `p` has become `c` and the system's set `s`.
  abbrev pub with : Net E.State O S → Ptr → Option (Connection O) → E.State → Net E.State O S
  with net p c s = record net { kernel = s; conns = at net.conns p c }

  remove_at :
      (net : Net E.State O S) (p : Ptr) (c : Connection O)
      → net.conns p ≡ some c
      → (err : Error) × (e : Event) × (s : E.State) × (conn_remove_notify E p net
          ≡ some (err, with net p (some (record c { event = e })) s))
        × (e.fd ≡ c.event.fd)
        × (s ≡ (Event.remove_notify E c.event net.kernel).2)
  unfolding conn_remove_notify
  remove_at net p c h =
      let (err, e, s) = Event.remove_notify E c.event net.kernel in
      (err, e, s, rw (h, conn_remove_notify) refl, remove_fd E c.event net.kernel, refl)

  close_fd_at :
      (fd : Option ℕ) (net : Net E.State O S)
      → (s : E.State) × (close_fd E fd net ≡ some (tt, record net { kernel = s }))
  close_fd_at none net = (net.kernel, refl)
  close_fd_at (some fd) net = (E.close_fd net.kernel fd, refl)

  -- The destructor of an event does not close its descriptor.
  pub delete_at :
      (net : Net E.State O S) (p : Ptr) (c : Connection O)
      → net.conns p ≡ some c
      → (s : E.State) × (delete E p net ≡ some (tt, with net p none s))
        × ((s ≡ net.kernel) ⊎ (s ≡ (Event.remove_notify E c.event net.kernel).2))
  unfolding delete
  delete_at net p c h = by_fd c.event.fd refl
    where
      by_fd :
          (fd : Option ℕ)
          → c.event.fd ≡ fd
          → (s : E.State) × (delete E p net ≡ some (tt, with net p none s))
            × ((s ≡ net.kernel) ⊎ (s ≡ (Event.remove_notify E c.event net.kernel).2))
      by_fd none e = (net.kernel, load_step net p c _ h ∙ rw e refl, inl refl)
      by_fd (some fd) e =
          let (err, e', s, r, _, from) = remove_at net p c h in
          (
            s,
            load_step net p c _ h
                ∙ rw (e, r, ◌>>=◌)
                    (ap (λ conns. some (tt, record net { kernel = s; conns = conns }))
                      (at-at net.conns p (some (record c { event = e' })) none)),
            inr from,
          )

  module _ (on_end : Ptr → M E.State O S Error) where
    on_closed_at :
        (net : Net E.State O S) (p : Ptr) (c : Connection O)
        → net.conns p ≡ some c
        → c.watched ≡ false
        → (s : E.State) × (on_closed E on_end p net ≡ some (tt, with net p none s))
    unfolding on_closed
    on_closed_at net p c h unwatched =
        let c' : Connection O = record c { connected = false } in
        let net' = with net p (some c') net.kernel in
        let (s, r, _) = delete_at net' p c' (at_self net.conns p (some c')) in
        (
          s,
          load_step net p c _ h
              ∙ ap (λ (act : M E.State O S (Unit {0})). (act >> delete E p) net')
                  (if_false _ _ c.watched unwatched)
              ∙ (r
                  ∙ ap (λ conns. some (tt, record net { kernel = s; conns = conns }))
                      (at-at net.conns p (some c') none)),
        )

    -- `Close` of a connection for whose end no handler is set: whatever the system answers, the
    -- connection is deleted, no other connection has changed, and the list of events to write is
    -- the same as before.
    pub close_event_total :
        (net : Net E.State O S) (p : Ptr) (c : Connection O)
        → net.conns p ≡ some c
        → c.watched ≡ false
        → (err : Error) × (s : E.State) × (close_event E on_end p net
            ≡ some (err, with net p none s))
    unfolding close_event
    close_event_total net p c h unwatched =
        let (err, e, s₁, r, _, _) = remove_at net p c h in
        let c₁ : Connection O = record c { event = e } in
        let net₁ = with net p (some c₁) s₁ in
        let (s₂, r₂) = close_fd_at e.fd net₁ in
        let net₂ : Net E.State O S = record net₁ { kernel = s₂ } in
        let (s, r₃) = on_closed_at net₂ p c₁ (at_self net.conns p (some c₁)) unwatched in
        (
          err,
          s,
          rw (r, ◌>>=◌)
              (load_step net₁ p c₁ _ (at_self net.conns p (some c₁))
                ∙ rw (r₂, r₃, ◌>>=◌)
                    (ap (λ conns. some (err, record net { kernel = s; conns = conns }))
                      (at-at net.conns p (some c₁) none))),
        )

    -- Where a connection is to be closed after its bytes are out, and the system takes only some of
    -- them, `OnWritable` closes and deletes the connection at once, so that the rest is never
    -- written; and the deleted connection stays in the list of events to write.
    pub on_writable-cuts :
        (net : Net E.State O S) (p : Ptr) (c : Connection O) (n : ℕ)
        → InOrder net
        → net.conns p ≡ some c
        → c.watched ≡ false
        → c.flag.close ≡ true
        → c.event.events.out_bit ≡ true
        → suc n < length c.send_buffer
        → (net' : Net E.State O S) × (on_writable E on_end p (moved (suc n)) net
            ≡ some (closed, net'))
          × (net'.conns p ≡ none)
          × (listed p net'.writes.nodes ≡ 1)
    unfolding on_writable conn_write write_out after_write
    on_writable-cuts net p c n v h unwatched shut out lt =
        let c₁ : Connection O = record c {
          send_buffer = View.offset c.send_buffer (suc n) (pos 0);
          place =
              past (length c.send_buffer - length (View.offset c.send_buffer (suc n) (pos 0)))
                c.place;
        } in
        let net₁ = moved_to net p c₁ net.writes in
        let h₁ = at_self net.conns p (some c₁) in
        let (err, s, r) = close_event_total net₁ p c₁ h₁ unwatched in
        let t : (length c.send_buffer == 0) ≡ false = ground arith in
        let y = lt→ltb (suc n) (length c.send_buffer) lt in
        (
          with net₁ p none s,
          load_step net p c _ h
              ∙ rw (t, h, y, ◌>>=◌)
                  (load_step net₁ p c₁ _ h₁
                    ∙ ap (λ (act : M E.State O S Error). act net₁) (if_true _ _ c.flag.close shut)
                    ∙ rw (r, ◌>>=◌) refl),
          at_self net₁.conns p none,
          v.once p ∙ (rw (h, event_of, out) refl),
        )
