-- ===== src/Conn/Order.antt =====
-- connections.cpp: the bytes given to `WriteToBuffer` and those that `OnWritable` gives to the system.
use redisproxy.Base.{
  ℕ, suc, zero, ◌≡◌, ◌<◌, ◌-◌, ◌+◌, ◌∙◌, ap, sym, refl, true, false, not, some, [], ◌∷◌, ◌++◌,
  Bytes, length, length-drop, take, drop, take-append-drop, take_all, append-nil, arith, ◌==◌, ltb,
  ltb→lt, Bool-cases, inl, inr,
}
use mathlib.Core.Bool.{false≢true}
use mathlib.Core.Path.{subst}
use redisproxy.Base.Int.{pos}
use redisproxy.Buffer.View
use redisproxy.Error.{Error, ok, of_code, try_again, is_none}
use redisproxy.Mem.{Ptr}
use redisproxy.Event.{Epoll, Event, Writes, set_writable}
use redisproxy.Event.Listed.{update, IsListed, set_writable_total, update_self}
use redisproxy.Conn.{
  Connection, Net, M, Answer, moved, failed, eagain, ◌>>=◌, conn_writable, write_out, conn_write,
  after_write, on_writable,
}
use redisproxy.Conn.Window.{Place, past, cleared}
use redisproxy.Conn.Erasing.{Keeps, conn_writable-Keeps, set_writable-Keeps}
use redisproxy.Conn.Laws.{
  event_of, events_of, InOrder, moved_to, load_step, again, at_self, at-at, InOrder-same,
  InOrder-moved, conn_writable_total,
}

-- The bytes that the system has taken of a buffer with its answer to `write`.
abbrev pub taken : Answer → Bytes → Bytes
taken (failed n) buffer = []
taken (moved n) buffer = take n buffer

-- A failed call leaves a positive `errno`.
abbrev pub IsAnswer : Answer → Type 0
IsAnswer (failed n) = 0 < n
IsAnswer (moved n) = Unit {0}

taken-nil : (answer : Answer) → taken answer [] ≡ []
taken-nil (failed n) = refl
taken-nil (moved zero) = refl
taken-nil (moved (suc n)) = refl

nil_of : (s : Bytes) → (length s == 0) ≡ true → s ≡ []
nil_of [] h = refl
nil_of (x ∷ s) h = absurd (ground (arith, h))

module _ (E : Epoll) {O S : Type 0} (on_end : Ptr → M E.State O S Error) where
  after_waits :
      (net : Net E.State O S) (c : Connection O) {p : Ptr}
      → net.conns p ≡ some c
      → c.flag.close ≡ false
      → after_write E on_end p false net ≡ some (ok, net)
  unfolding after_write
  after_waits net c {p} h open_ = load_step net p c _ h ∙ rw open_ refl

  after_done :
      (net : Net E.State O S) (c : Connection O) {p : Ptr} {net' : Net E.State O S}
      → net.conns p ≡ some c
      → c.flag.close ≡ false
      → conn_writable p false net ≡ some (ok, net')
      → after_write E on_end p true net ≡ some (ok, net')
  unfolding after_write
  after_done net c {p} h open_ r = load_step net p c _ h ∙ rw (open_, r, ◌>>=◌) refl

  -- Where the bytes that are left lie, in the same block.
  abbrev pub Stays : Connection O → Bytes → Place → Type 0
  Stays c buffer s =
      (s.overlapped ≡ c.place.overlapped)
      × (s.capacity ≡ c.place.capacity)
      × ((length buffer == 0) ≡ false
          → s.offset ≡ c.place.offset + (length c.send_buffer - length buffer))

  -- What `OnWritable` does on a connection that is not to be closed: what is taken and what is left
  -- are the bytes that waited, and while it returns OK the bit `EPOLLOUT` says whether bytes wait. It fails only
  -- where `write` does.
  abbrev pub Polled : Net E.State O S → Ptr → Connection O → Answer → Type 0
  Polled net p c answer =
      (err : Error) × (e : Event) × (w : Writes) × (buffer : Bytes) × (s : Place) × (let net' =
          moved_to net p (record c { event = e; send_buffer = buffer; place = s }) w in
        (on_writable E on_end p answer net ≡ some (err, net')) × InOrder net')
      × (taken answer c.send_buffer ++ buffer ≡ c.send_buffer)
      × (is_none err ≡ true
          → c.event.events.out_bit ≡ true
          → e.events.out_bit ≡ not (length buffer == 0))
      × Keeps c.event net.writes w
      × ((n : ℕ) → answer ≡ moved n → is_none err ≡ true)
      × Stays c buffer s

  module _ (net : Net E.State O S) (p : Ptr) (c : Connection O) (v : InOrder net)
      (h : net.conns p ≡ some c) (open_ : c.flag.close ≡ false) where
    InOrder-kept : (d : Connection O) → c.event ≡ d.event → InOrder (moved_to net p d net.writes)
    InOrder-kept d e =
        InOrder-same net p c d net.writes e
          (InOrder-moved net p c net.writes (subst (λ es. IsListed es net.writes) kept v))
      where
        kept : events_of net.conns ≡ update (events_of net.conns) p c.event
        kept =
            sym (update_self (events_of net.conns) p)
            ∙ ap (λ o. update (events_of net.conns) p (event_of o)) h

    Polled-empty : (answer : Answer) → c.send_buffer ≡ [] → Polled net p c answer
    unfolding on_writable
    Polled-empty answer e =
        let (ev, w, r, v', b) = conn_writable_total net p c false v h in
        let t : (length c.send_buffer == 0) ≡ true = ap (λ (s : Bytes). length s == 0) e in
        (
          ok,
          ev,
          w,
          c.send_buffer,
          c.place,
          (load_step net p c _ h ∙ rw (t, r, ◌>>=◌) refl, InOrder-same net p _ _ w refl v'),
          ap (λ s. s ++ c.send_buffer) (ap (taken answer) e ∙ taken-nil answer),
          λ _ _. rw t b,
          conn_writable-Keeps net _ p c ok h r,
          λ _ _. refl,
          (refl, refl, λ z. absurd (false≢true (sym z ∙ t))),
        )

    -- The calls after which bytes wait.
    Polled-waits :
        (answer : Answer) (rest : Bytes)
        → (length c.send_buffer == 0) ≡ false
        → write_out p answer c.event net.writes c.send_buffer
          ≡ some (try_again, c.event, net.writes, rest)
        → taken answer c.send_buffer ++ rest ≡ c.send_buffer
        → (length rest == 0) ≡ false
        → Polled net p c answer
    unfolding on_writable conn_write
    Polled-waits answer rest t r e some_left =
        let s : Place = past (length c.send_buffer - length rest) c.place in
        let c' : Connection O = record c { send_buffer = rest; place = s } in
        (
          ok,
          c.event,
          net.writes,
          rest,
          s,
          (
            load_step net p c _ h
                ∙ rw (t, h, r, ◌>>=◌)
                    (after_waits (moved_to net p c' net.writes) c' (at_self net.conns p (some c'))
                      open_),
            InOrder-kept c' refl,
          ),
          e,
          λ _ b. rw some_left b,
          inl refl,
          λ _ _. refl,
          (refl, refl, λ _. refl),
        )

    -- The calls that fail.
    Polled-fails :
        (n : ℕ)
        → (length c.send_buffer == 0) ≡ false
        → 0 < n
        → (n == eagain) ≡ false
        → Polled net p c (failed n)
    unfolding on_writable conn_write write_out
    Polled-fails n t n_pos other =
        let (e, w, r, v', b) = set_writable_total p false (events_of net.conns) net.writes v in
        let r' : set_writable p false c.event net.writes ≡ some (ok, e, w) = rw h at r in
        let q : is_none (of_code (pos n)) ≡ false = ground arith in
        let s : Place = past (length c.send_buffer - length c.send_buffer) c.place in
        let c' : Connection O = record c { event = e; place = s } in
        (
          of_code (pos n),
          e,
          w,
          c.send_buffer,
          s,
          (
            load_step net p c _ h ∙ rw (t, h, other, r', ◌>>=◌, q) refl,
            InOrder-moved net p c' w v',
          ),
          refl,
          λ z _. absurd (false≢true (sym q ∙ z)),
          set_writable-Keeps p c.event e net.writes w ok r',
          λ _ m. absurd (cc),
          (refl, refl, λ _. refl),
        )

    -- The call that empties the buffer.
    Polled-done :
        (answer : Answer)
        → (length c.send_buffer == 0) ≡ false
        → write_out p answer c.event net.writes c.send_buffer
          ≡ some (ok, c.event, net.writes, c.send_buffer)
        → taken answer c.send_buffer ≡ c.send_buffer
        → Polled net p c answer
    unfolding on_writable conn_write
    Polled-done answer t r all =
        let s : Place = past (length c.send_buffer - length c.send_buffer) c.place in
        let d : Connection O = record c { place = s } in
        let c₀ : Connection O = record c { send_buffer = []; place = cleared s } in
        let net₁ = moved_to net p d net.writes in
        let net₂ = moved_to net p c₀ net.writes in
        let twice = at-at net.conns p (some d) (some c₀) in
        let (e, w, g, v', b) =
          conn_writable_total net₂ p c₀ false (InOrder-kept c₀ refl)
            (at_self net.conns p (some c₀)) in
        let c' : Connection O = record c₀ { event = e } in
        (
          ok,
          e,
          w,
          [],
          cleared s,
          (
            load_step net p c _ h
                ∙ rw (t, h, r, ◌>>=◌)
                    (load_step net₁ p d _ (at_self net.conns p (some d))
                      ∙ ap (λ conns. after_write E on_end p true (record net { conns = conns }))
                          twice
                      ∙ after_done net₂ c₀ (at_self net.conns p (some c₀)) open_ g
                      ∙ again net p c₀ c' w ok),
            subst (λ conns. IsListed (events_of conns) w) (at-at net.conns p (some c₀) (some c'))
                v',
          ),
          append-nil _ ∙ all,
          λ _ _. b,
          conn_writable-Keeps net₂ _ p c₀ ok (at_self net.conns p (some c₀)) g,
          λ _ _. refl,
          (refl, refl, λ z. absurd (false≢true (sym z))),
        )

    Polled-pending :
        (answer : Answer)
        → IsAnswer answer
        → (length c.send_buffer == 0) ≡ false
        → Polled net p c answer
    unfolding write_out View.offset
    Polled-pending (failed n) n_pos t = elim (Bool-cases (n == eagain)) [
      | inl y ↦ Polled-waits (failed n) c.send_buffer t (rw y refl) refl t
      | inr m ↦ Polled-fails n t n_pos m
    ]
    Polled-pending (moved zero) n_pos t = Polled-waits (moved zero) c.send_buffer t refl refl t
    Polled-pending (moved (suc n)) n_pos t =
        elim (Bool-cases (ltb (suc n) (length c.send_buffer))) [
          | inl y ↦
              let l = ltb→lt (suc n) (length c.send_buffer) y in
              Polled-waits (moved (suc n)) (drop (suc n) c.send_buffer) t (rw y refl)
                (take-append-drop (suc n) c.send_buffer)
                (ground (arith, length-drop (suc n) c.send_buffer, l))
          | inr m ↦
              Polled-done (moved (suc n)) t (rw m refl)
                (take_all (suc n) c.send_buffer (ground (arith, m)))
        ]

    pub on_writable_total : (answer : Answer) → IsAnswer answer → Polled net p c answer
    on_writable_total answer a = elim (Bool-cases (length c.send_buffer == 0)) [
      | inl y ↦ Polled-empty answer (nil_of c.send_buffer y)
      | inr m ↦ Polled-pending answer a m
    ]
