-- ===== src/Conn/Laws.antt =====
-- connections.cpp: what the steps of a connection do, where the list of events to write is in order.
use redisproxy.Base.{
  length, ◌≡◌, ◌∙◌, ap, sym, refl, Bool, true, Option, none, some, ◌++◌, Bytes, ◌==◌, ==_iff,
  ==_refl, Bool-cases, Option-cases, inl, inr,
}
use mathlib.Core.Path.{fun_ext, subst}
use mathlib.Core.Option.{some-ne-none}
use redisproxy.Error.{ok}
use redisproxy.Mem.{Ptr}
use redisproxy.Event
use redisproxy.Event.{Epoll, Event, Writes, set_writable}
use redisproxy.Event.Listed.{Events, update, IsListed, set_writable_total}
use redisproxy.Conn.{
  Connection, Net, M, Flags, join, at, ◌>>=◌, load, conn_writable, write_to_buffer,
}
use redisproxy.Conn.Window.{append_place}

-- The events of the connections that are not deleted.
abbrev pub event_of : {O : Type 0} → Option (Connection O) → Event
event_of none = Event.fresh
event_of (some c) = c.event

abbrev pub events_of : {O : Type 0} → (Ptr → Option (Connection O)) → Events
events_of conns q = event_of (conns q)

-- Who reads from a connection; `none` for one that is deleted.
abbrev pub held : {O : Type 0} → (Ptr → Option (Connection O)) → Ptr → Option (Option O)
held conns q = elim (conns q) [ none ↦ none | some c ↦ some c.reader ]

module _ {O : Type 0} where
  pub held-at :
      (conns : Ptr → Option (Connection O)) (p : Ptr) (c c' : Connection O)
      → conns p ≡ some c
      → c'.reader ≡ c.reader
      → (q : Ptr) → held (at conns p (some c')) q ≡ held conns q
  held-at conns p c c' h same q = elim (Bool-cases (p == q)) [
    | inl y ↦
        let e = (==_iff p q).0 y in
        let l : conns q ≡ some c = ap conns (sym e) ∙ h in rw (y, l, held) (ap (λ o. some o) same)
    | inr n ↦ rw (n, held) refl
  ]

  pub held-none :
      (conns conns' : Ptr → Option (Connection O)) (q : Ptr)
      → held conns' q ≡ held conns q
      → conns q ≡ none
      → conns' q ≡ none
  held-none conns conns' q h n = elim (Option-cases (conns' q)) [
    | inl e ↦ e
    | inr (c, e) ↦ absurd (some-ne-none c.reader (rw (e, n, held) at h))
  ]

  pub events_of-at :
      (conns : Ptr → Option (Connection O)) (p : Ptr) (c : Connection O)
      → events_of (at conns p (some c)) ≡ update (events_of conns) p c.event
  events_of-at conns p c = fun_ext (λ q. elim (Bool-cases (p == q)) [
    | inl y ↦ rw (y, events_of) refl
    | inr n ↦ rw (n, events_of) refl
  ])

  pub at_self :
      (conns : Ptr → Option (Connection O)) (p : Ptr) (c : Option (Connection O))
      → at conns p c p ≡ c
  at_self conns p c = rw (==_refl p)

  pub at-at :
      (conns : Ptr → Option (Connection O)) (p : Ptr) (c d : Option (Connection O))
      → at (at conns p c) p d ≡ at conns p d
  at-at conns p c d = fun_ext (λ q. elim (Bool-cases (p == q)) [ inl y ↦ rw y | inr n ↦ rw n ])

module _ {K O S : Type 0} where
  -- The list is in order for the connections of the program.
  abbrev pub InOrder : Net K O S → Type 0
  InOrder net = IsListed (events_of net.conns) net.writes

  -- The program after the connection at `p` has become `c`, and the list `w`.
  abbrev pub moved_to : Net K O S → Ptr → Connection O → Writes → Net K O S
  moved_to net p c w = record net { writes = w; conns = at net.conns p (some c) }

  pub InOrder-moved :
      (net : Net K O S) (p : Ptr) (c : Connection O) (w : Writes)
      → IsListed (update (events_of net.conns) p c.event) w
      → InOrder (moved_to net p c w)
  InOrder-moved net p c w v = subst (λ es. IsListed es w) (sym (events_of-at net.conns p c)) v

  pub load_step :
      {R : Type 0} (net : Net K O S) (p : Ptr) (c : Connection O) (k : Connection O → M K O S R)
      → net.conns p ≡ some c
      → (load p >>= k) net ≡ k c net
  load_step net p c k h = rw (h, ◌>>=◌) refl

  -- A connection that is stored twice.
  pub again :
      {R : Type 0} (net : Net K O S) (p : Ptr) (c d : Connection O) (w : Writes) (r : R)
      → ◌≡◌ {A = Option (R × Net K O S)}
          (some
            (r, record (moved_to net p c w) { conns = at (moved_to net p c w).conns p (some d) }))
          (some (r, moved_to net p d w))
  again net p c d w r =
      ap (λ conns. some (r, record net { writes = w; conns = conns }))
        (at-at net.conns p (some c) (some d))

  -- Only the event of a connection matters to the list.
  pub InOrder-same :
      (net : Net K O S) (p : Ptr) (c d : Connection O) (w : Writes)
      → c.event ≡ d.event
      → InOrder (moved_to net p c w)
      → InOrder (moved_to net p d w)
  InOrder-same net p c d w e v =
      subst (λ es. IsListed es w)
        (events_of-at net.conns p c
          ∙ ap (update (events_of net.conns) p) e
          ∙ sym (events_of-at net.conns p d))
        v

  -- `SetWritable` of a live connection: it returns OK, the bit is as asked, and the connection is
  -- otherwise the same.
  pub conn_writable_total :
      (net : Net K O S) (p : Ptr) (c : Connection O) (flag : Bool)
      → InOrder net
      → net.conns p ≡ some c
      → (e : Event) × (w : Writes) × (conn_writable p flag net
          ≡ some (ok, moved_to net p (record c { event = e }) w))
        × InOrder (moved_to net p (record c { event = e }) w)
        × (e.events.out_bit ≡ flag)
  unfolding conn_writable
  conn_writable_total net p c flag v h =
      let (e, w, r, v', b) = set_writable_total p flag (events_of net.conns) net.writes v in
      let r' : set_writable p flag c.event net.writes ≡ some (ok, e, w) = rw h at r in
      (e, w, rw (h, r', conn_writable) refl, InOrder-moved net p (record c { event = e }) w v', b)

  pub write_to_buffer_total :
      (net : Net K O S) (p : Ptr) (c : Connection O) (bytes : Bytes) (flags : Flags)
      → InOrder net
      → net.conns p ≡ some c
      → (e : Event) × (w : Writes) × (let c' : Connection O = record c {
        event = e;
        send_buffer = c.send_buffer ++ bytes;
        place = append_place c.place (length c.send_buffer) (length bytes);
        flag = join c.flag flags;
      } in
          (write_to_buffer p bytes flags net ≡ some (ok, moved_to net p c' w))
          × InOrder (moved_to net p c' w))
        × (e.events.out_bit ≡ true)
  unfolding write_to_buffer
  write_to_buffer_total net p c bytes flags v h =
      let (e, w, r, v', b) = conn_writable_total net p c true v h in
      (
        e,
        w,
        (
          rw (r, ◌>>=◌)
              (load_step (moved_to net p (record c { event = e }) w) p (record c { event = e }) _
                  (at_self net.conns p _)
                ∙ again net p _ _ w ok),
          InOrder-same net p _ _ w refl v',
        ),
        b,
      )
