-- ===== src/Conn/Drain.antt =====
-- netio.cpp: a round of `HandleWriteEvents` where the system takes what it is given.
use redisproxy.Base.{
  ℕ, ◌+◌, ◌≤◌, ◌≡◌, ◌∙◌, ap, sym, refl, false, none, some, List, [], ◌∷◌, length, arith, ◌==◌,
  ==_iff, if◌then◌else◌, Bool-cases, inl, inr, Option-cases,
}
use mathlib.Core.Path.{subst}
use mathlib.Core.Option.{some-injective, some-ne-none}
use mathlib.Core.Bool.{false≢true}
use redisproxy.Error.{Error, ok}
use redisproxy.Mem.{Ptr}
use redisproxy.Event.{Epoll, Node}
use redisproxy.Event.Listed.{listed}
use redisproxy.Conn.{Connection, Net, M, Answer, moved, ◌>>=◌}
use redisproxy.Conn.Laws.{held-none, InOrder, event_of}
use redisproxy.Conn.Order.{IsAnswer}
use redisproxy.Conn.Polling.{handle_write_events}
use redisproxy.Conn.Trace.{IsArmed}
use redisproxy.Conn.Erasing.{listed_in}
use redisproxy.Conn.Round.{AllOpen, Rounded, listed_live, write_loop_total}

unarmed :
    {O : Type 0} (c : Connection O)
    → c.event.events.out_bit ≡ false
    → IsArmed c
    → length c.send_buffer ≡ 0
unarmed c b a = elim (Bool-cases (length c.send_buffer == 0)) [
  | inl y ↦ (==_iff (length c.send_buffer) 0).0 y
  | inr m ↦ absurd (false≢true (sym b ∙ a m))
]

module _ (E : Epoll) {O S : Type 0} (on_end : Ptr → M E.State O S Error) (answers : Ptr → Answer)
    (are_answers : (p : Ptr) → IsAnswer (answers p)) where
  none_listed :
      (net : Net E.State O S)
      → InOrder net
      → ((q : Ptr) (c : Connection O) → net.conns q ≡ some c → c.event.events.out_bit ≡ false)
      → net.writes.nodes ≡ []
  none_listed net v off = by_list net.writes.nodes refl
    where
      by_list : (ns : List Node) → net.writes.nodes ≡ ns → ns ≡ []
      by_list [] e = refl
      by_list (n ∷ ns) e =
          let (c, h, bit, _, _) =
            listed_live E on_end answers are_answers net n.event v
              (rw e (listed_in n.event [] n ns refl)) in
          absurd (false≢true (sym (off n.event c h) ∙ bit))

  listed_bit :
      (net : Net E.State O S) (q : Ptr) (c : Connection O)
      → InOrder net
      → net.conns q ≡ some c
      → listed q net.writes.nodes ≡ (if c.event.events.out_bit then 1 else 0)
  listed_bit net q c v h = v.once q ∙ ap (λ o. if (event_of o).events.out_bit then 1 else 0) h

  -- The system takes all that a connection has to send.
  abbrev pub TakesAll : Net E.State O S → Type 0
  TakesAll net =
      (q : Ptr) (c : Connection O)
      → net.conns q ≡ some c
      → (n : ℕ) × (answers q ≡ moved n) × (length c.send_buffer ≤ n)

  -- Where bytes wait only at connections with the bit `EPOLLOUT`, none of which is to be closed, and the
  -- system takes all that it is given, one round of `HandleWriteEvents` sends everything: every
  -- connection is still there with nothing left to send, and the list of events to write is empty.
  pub handle_write_events-drains :
      (net : Net E.State O S)
      → InOrder net
      → AllOpen E on_end answers are_answers net
      → ((q : Ptr) (c : Connection O) → net.conns q ≡ some c → IsArmed c)
      → TakesAll net
      → (net' : Net E.State O S) × (handle_write_events E on_end answers net ≡ some (ok, net'))
        × (net'.writes.nodes ≡ [])
        × ((q : Ptr) (c : Connection O)
            → net.conns q ≡ some c
            → (c' : Connection O) × (net'.conns q ≡ some c') × (length c'.send_buffer ≡ 0))
  unfolding handle_write_events
  handle_write_events-drains net v o armed all =
      let (net', r, v', _, rounded, kept) =
        write_loop_total E on_end answers are_answers net.writes.nodes []
          (length net.writes.nodes + 1) net v o refl (omega arith) in
      let none_new : (q : Ptr) → net.conns q ≡ none → net'.conns q ≡ none =
        λ q n. held-none net.conns net'.conns q (kept.1 q) n in
      (
        net',
        rw (r, handle_write_events, ◌>>=◌) refl,
        none_listed net' v' (λ q c' h'. (sent net' rounded none_new q c' h').1),
        λ q c h.
            let (c', h', _, _) = rounded q c h in (c', h', (sent net' rounded none_new q c' h').0),
      )
    where
      sent :
          (net' : Net E.State O S)
          → Rounded E on_end answers are_answers net.writes.nodes net net'
          → ((q : Ptr) → net.conns q ≡ none → net'.conns q ≡ none)
          → (q : Ptr) (c' : Connection O) → net'.conns q ≡ some c'
          → (length c'.send_buffer ≡ 0) × (c'.event.events.out_bit ≡ false)
      sent net' rounded none_new q c' h' = elim (Option-cases (net.conns q)) [
        | inl h ↦ absurd (some-ne-none _ (sym h' ∙ none_new q h))
        | inr (c, h) ↦
            let (d, hd, kept, served) = rounded q c h in
            let same = some-injective _ _ (sym hd ∙ h') in
            let (n, a, l) = all q c h in
            subst
              (λ (x : Connection O). (length x.send_buffer ≡ 0) × (x.event.events.out_bit ≡ false))
              same
              (elim (Bool-cases c.event.events.out_bit) [
                | inl b ↦ (served (ground (arith, listed_bit net q c v h, b))).1 n a l
                | inr b ↦
                    let one = kept (ground (arith, listed_bit net q c v h, b)) in
                    subst
                      (λ (x : Connection O).
                        (length x.send_buffer ≡ 0) × (x.event.events.out_bit ≡ false))
                      (sym one) (unarmed c b (armed q c h), b)
              ])
      ]
