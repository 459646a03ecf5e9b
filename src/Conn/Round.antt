-- ===== src/Conn/Round.antt =====
-- netio.cpp: what a round of `HandleWriteEvents` does to the connections.
use redisproxy.Base.{
  ℕ, zero, suc, ◌+◌, ◌≤◌, ◌<◌, ◌≡◌, ◌∙◌, ap, sym, refl, Bool, true, false, not, Option, none, some,
  List, [], ◌∷◌, ◌++◌, append_assoc, Bytes, length, arith, ◌==◌, ==_iff, if◌then◌else◌, Bool-cases,
  inl, inr, length-append, take_all,
}
use mathlib.Core.Path.{subst}
use mathlib.Core.Option.{some-injective}
use redisproxy.Error.{Error, ok}
use redisproxy.Mem.{Ptr}
use redisproxy.Event.{Epoll, Event, Node, Writes}
use redisproxy.Event.Listed.{listed, find}
use redisproxy.Conn.{Connection, Net, M, Answer, moved, ◌>>=◌}
use redisproxy.Conn.Window.{Place}
use redisproxy.Conn.Laws.{InOrder, event_of, held, held-at, moved_to}
use redisproxy.Conn.Order.{taken, IsAnswer, on_writable_total}
use redisproxy.Conn.Polling.{head_id, after, write_loop, handle_write_events}
use redisproxy.Conn.Erasing.{Keeps, located, listed_in, listed_alone}

set_bit : (b : Bool) (n : ℕ) → n ≡ (if b then 1 else 0) → 1 ≤ n → b ≡ true
set_bit b n e l = ground arith

module _ (E : Epoll) {O S : Type 0} (on_end : Ptr → M E.State O S Error) (answers : Ptr → Answer)
    (are_answers : (p : Ptr) → IsAnswer (answers p)) where
  -- No connection is to be closed.
  abbrev pub AllOpen : Net E.State O S → Type 0
  AllOpen net = (q : Ptr) (c : Connection O) → net.conns q ≡ some c → c.flag.close ≡ false

  -- What a connection comes to when it is polled: what the system takes, and what is left, are the bytes that
  -- waited; and if the system takes all of them, it does not ask to be written any more.
  abbrev pub Served : Ptr → Connection O → Connection O → Type 0
  Served q c c' =
      (taken (answers q) c.send_buffer ++ c'.send_buffer ≡ c.send_buffer)
      × ((n : ℕ)
          → answers q ≡ moved n
          → length c.send_buffer ≤ n
          → (length c'.send_buffer ≡ 0) × (c'.event.events.out_bit ≡ false))

  -- The connections after a round over the nodes `ns`: those that are listed are served, the others are the
  -- same.
  abbrev pub Rounded : List Node → Net E.State O S → Net E.State O S → Type 0
  Rounded ns net net' =
      (q : Ptr) (c : Connection O)
      → net.conns q ≡ some c
      → (c' : Connection O) × (net'.conns q ≡ some c')
        × (listed q ns ≡ 0 → c' ≡ c)
        × (1 ≤ listed q ns → Served q c c')

  -- No connection is deleted or changes its reader, and nothing happens outside of the connections.
  abbrev pub Kept : Net E.State O S → Net E.State O S → Type 0
  Kept net net' = (net'.outer ≡ net.outer) × ((q : Ptr) → held net'.conns q ≡ held net.conns q)

  -- An event that is listed is one of a live connection with the bit `EPOLLOUT`.
  pub listed_live :
      (net : Net E.State O S) (q : Ptr)
      → InOrder net
      → 1 ≤ listed q net.writes.nodes
      → (c : Connection O) × (net.conns q ≡ some c)
        × (c.event.events.out_bit ≡ true)
        × (listed q net.writes.nodes ≡ 1)
        × (find c.event.write_list_pos net.writes.nodes ≡ some q)
  listed_live net q v l = by_conn (net.conns q) refl
    where
      by_conn :
          (o : Option (Connection O))
          → net.conns q ≡ o
          → (c : Connection O) × (net.conns q ≡ some c)
            × (c.event.events.out_bit ≡ true)
            × (listed q net.writes.nodes ≡ 1)
            × (find c.event.write_list_pos net.writes.nodes ≡ some q)
      by_conn none h = absurd (ground (arith, l, v.once q, ap (λ o. (event_of o).events.out_bit) h))
      by_conn (some c) h =
          let once_q = v.once q in
          let once = rw h at once_q in
          let at_q = v.at q in
          let bit : c.event.events.out_bit ≡ true = set_bit c.event.events.out_bit _ once l in
          (c, h, bit, rw bit at once, (rw h at at_q) bit)

  -- What `OnWritable` of the first node makes of the list, and where the iterator goes.
  step_list :
      (pre : List Node) (n : Node) (ns : List Node) (c : Connection O) (w w' : Writes)
      → w.nodes ≡ pre ++ n ∷ ns
      → listed n.event w.nodes ≡ 1
      → find c.event.write_list_pos w.nodes ≡ some n.event
      → Keeps c.event w w'
      → (find n.id w.nodes ≡ some n.event)
        × (after n.id w.nodes ≡ some (head_id ns))
        × ((pre' : List Node) × (w'.nodes ≡ pre' ++ ns))
  step_list pre n ns c w w' e l f k =
      let (i, er, af) =
        located c.event.write_list_pos n.event pre n ns refl (rw e at l) (rw e at f) in
      (
        rw i f,
        rw (i, e) af,
        elim k as (λ _. (pre' : List Node) × (w'.nodes ≡ pre' ++ ns)) [
          | inl same ↦ (pre ++ n ∷ [], same ∙ e ∙ sym (append_assoc pre (n ∷ []) ns))
          | inr gone ↦ (pre, some-injective _ _ (sym gone ∙ (rw e er)))
        ],
      )

  Served-poll :
      (p : Ptr) (c : Connection O) (ev : Event) (buffer : Bytes) (s : Place)
      → taken (answers p) c.send_buffer ++ buffer ≡ c.send_buffer
      → ((n : ℕ) → answers p ≡ moved n → ev.events.out_bit ≡ not (length buffer == 0))
      → Served p c (record c { event = ev; send_buffer = buffer; place = s })
  Served-poll p c ev buffer s t arm = (
    t,
    λ n m l.
        let all : c.send_buffer ++ buffer ≡ c.send_buffer =
          ap (λ s. s ++ buffer) (sym (take_all n c.send_buffer l)) ∙ (rw m at t) in
        let none_left : length buffer ≡ 0 =
          omega (arith, ap length all, length-append c.send_buffer buffer) in
        (none_left, arm n m ∙ ap (λ k. not (k == 0)) none_left),
  )

  Served-same :
      (p q : Ptr) (c d c' d' : Connection O)
      → p ≡ q
      → c ≡ d
      → c' ≡ d'
      → Served p c c'
      → Served q d d'
  Served-same p q c d c' d' e f g s =
      subst (λ x. Served x d d') e (subst (λ x. Served p x d') f (subst (λ x. Served p c x) g s))

  AllOpen-moved :
      (net : Net E.State O S) (p : Ptr) (c : Connection O) (w : Writes)
      → AllOpen net
      → c.flag.close ≡ false
      → AllOpen (moved_to net p c w)
  AllOpen-moved net p c w o open_ q d h = elim (Bool-cases (p == q)) [
    | inl y ↦ ap (λ (x : Connection O). x.flag.close) (some-injective _ _ (sym (rw y at h))) ∙ open_
    | inr m ↦ o q d (rw m at h)
  ]

  pub write_loop_total :
      (ns pre : List Node) (fuel : ℕ) (net : Net E.State O S)
      → InOrder net
      → AllOpen net
      → net.writes.nodes ≡ pre ++ ns
      → length ns < fuel
      → (net' : Net E.State O S) × (write_loop E on_end answers fuel (head_id ns) net
          ≡ some (tt, net'))
        × InOrder net'
        × AllOpen net'
        × Rounded ns net net'
        × Kept net net'
  unfolding write_loop
  write_loop_total ns pre zero net v o e l = absurd (omega arith)
  write_loop_total [] pre (suc fuel) net v o e l =
      (net, refl, v, o, λ q c h. (c, h, λ _. refl, λ w. absurd (omega arith)), (refl, λ q. refl))
  write_loop_total (n ∷ ns) pre (suc fuel) net v o e l =
      let p = n.event in
      let (c, h, bit, one, f) = listed_live net p v (rw e (listed_in p pre n ns refl)) in
      let (err, ev, w, buffer, s, (r, v'), t, arm, k, fine, _) =
        on_writable_total E on_end net p c v h (o p c h) (answers p) (are_answers p) in
      let c₁ : Connection O = record c { event = ev; send_buffer = buffer; place = s } in
      let net₁ = moved_to net p c₁ w in
      let (fi, af, (pre', e')) = step_list pre n ns c net.writes w e one f k in
      let (net', r', v'', o', rounded, kept) =
        write_loop_total ns pre' fuel net₁ v' (AllOpen-moved net p c₁ w o (o p c h)) e'
          (omega arith) in
      let served = Served-poll p c ev buffer s t (λ m a. arm (fine m a) bit) in
      (
        net',
        rw (fi, af, r, write_loop) r',
        v'',
        o',
        λ q d hd. elim (Bool-cases (p == q)) [
          | inl y ↦
              let same = (==_iff p q).0 y in
              let (d', h', unmoved, _) = rounded q c₁ (rw y refl) in
              let last =
                unmoved
                  (ap (λ x. listed x ns) (sym same) ∙ listed_alone p pre n ns refl (rw e at one)) in
              (
                d',
                h',
                λ z. absurd (ground (arith, y, z)),
                λ _.
                    Served-same p q c d c₁ d' same
                      (some-injective _ _ (sym h ∙ ap net.conns same ∙ hd)) (sym last) served,
              )
          | inr m ↦
              let (d', h', unmoved, more) = rounded q d (rw m hd) in
              (d', h', λ z. unmoved (ground (arith, m, z)), λ z. more (ground (arith, m, z)))
        ],
        (kept.0, λ q. kept.1 q ∙ held-at net.conns p c c₁ h refl q),
      )

  -- A round of `HandleWriteEvents`, where no connection is to be closed and `write` fails only with an
  -- `errno`: it ends and is no fault, every event that is listed at its start is polled once, the
  -- others are as they were, and the list is still in order.
  pub handle_write_events-Rounded :
      (net : Net E.State O S)
      → InOrder net
      → AllOpen net
      → (net' : Net E.State O S) × (handle_write_events E on_end answers net ≡ some (ok, net'))
        × InOrder net'
        × Rounded net.writes.nodes net net'
  unfolding handle_write_events
  handle_write_events-Rounded net v o =
      let (net', r, v', _, rounded, _) =
        write_loop_total net.writes.nodes [] (length net.writes.nodes + 1) net v o refl
          (omega arith) in
      (net', rw (r, handle_write_events, ◌>>=◌) refl, v', rounded)

  pub handle_write_events-Kept :
      (net : Net E.State O S)
      → InOrder net
      → AllOpen net
      → (net' : Net E.State O S) × (handle_write_events E on_end answers net ≡ some (ok, net'))
        × InOrder net'
        × Kept net net'
  unfolding handle_write_events
  handle_write_events-Kept net v o =
      let (net', r, v', _, _, kept) =
        write_loop_total net.writes.nodes [] (length net.writes.nodes + 1) net v o refl
          (omega arith) in
      (net', rw (r, handle_write_events, ◌>>=◌) refl, v', kept)
