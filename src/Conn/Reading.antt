-- ===== src/Conn/Reading.antt =====
-- epoll.cpp: `SetReadable` of a connection, which leaves the list of events to write alone.
use redisproxy.Base.{
  ◌≡◌, ◌∙◌, ap, refl, sym, Bool, some, arith, ◌==◌, ==_iff, Bool-cases, inl, inr, if◌then◌else◌,
}
use redisproxy.Error.{Error}
use redisproxy.Mem.{Ptr}
use redisproxy.Event
use redisproxy.Event.{Epoll, Event, Writes, set_readable}
use redisproxy.Event.Interest.{set_readable_bits}
use redisproxy.Event.Listed.{Events, IsListed, update, find}
use redisproxy.Conn.{Connection, Net, at, conn_readable}
use redisproxy.Conn.Laws.{InOrder, InOrder-moved, events_of}

-- What the list needs to know of an event.
abbrev pub IsAlike : Event → Event → Type 0
IsAlike e d = (e.events.out_bit ≡ d.events.out_bit) × (e.write_list_pos ≡ d.write_list_pos)

update-IsAlike :
    (es : Events) (p : Ptr) (e : Event)
    → IsAlike e (es p)
    → (q : Ptr) → IsAlike (update es p e q) (es q)
update-IsAlike es p e (b, w) q = elim (Bool-cases (p == q)) [
  | inl y ↦
      let same = (==_iff p q).0 y in
      rw y (b ∙ ap (λ r. (es r).events.out_bit) same, w ∙ ap (λ r. (es r).write_list_pos) same)
  | inr n ↦ rw n (refl, refl)
]

pub IsListed-alike :
    (es : Events) (w : Writes) (p : Ptr) (e : Event)
    → IsAlike e (es p)
    → IsListed es w
    → IsListed (update es p e) w
IsListed-alike es w p e a v = record {
  below = v.below;
  once = λ q. v.once q ∙ ap (λ b. if b then 1 else 0) (sym (update-IsAlike es p e a q).0);
  at = λ q h.
      ap (λ i. find i w.nodes) (update-IsAlike es p e a q).1
      ∙ v.at q (sym (update-IsAlike es p e a q).0 ∙ h);
}

set_readable_pos :
    (E : Epoll) (flag : Bool) (e : Event) (s : E.State)
    → (set_readable E flag e s).1.write_list_pos ≡ e.write_list_pos
unfolding set_readable Event.operate_notify Event.notify
set_readable_pos E flag e s = ground arith

module _ (E : Epoll) {O S : Type 0} where
  -- `SetReadable` of a live connection, whatever the system answers: the bit is as asked, the
  -- connection is otherwise the same, and the list of events to write stays in order.
  pub conn_readable_total :
      (net : Net E.State O S) (p : Ptr) (c : Connection O) (flag : Bool)
      → InOrder net
      → net.conns p ≡ some c
      → (err : Error) × (e : Event) × (s : E.State) × (let net' : Net E.State O S = record net {
        kernel = s;
        conns = at net.conns p (some (record c { event = e }));
      } in
          (conn_readable E p flag net ≡ some (err, net')) × InOrder net')
        × (e.events.in_bit ≡ flag)
  unfolding conn_readable
  conn_readable_total net p c flag v h =
      let (err, e, s) = set_readable E flag c.event net.kernel in
      let (i, o, _) = set_readable_bits E flag c.event net.kernel in
      let alike : IsAlike e (events_of net.conns p) =
        rw h (o, set_readable_pos E flag c.event net.kernel) in
      (
        err,
        e,
        s,
        (
          rw (h, conn_readable) refl,
          InOrder-moved (record net { kernel = s }) p (record c { event = e }) net.writes
              (IsListed-alike (events_of net.conns) net.writes p e alike v),
        ),
        i,
      )
