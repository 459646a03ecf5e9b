-- ===== src/Conn/Stale.antt =====
-- netio.cpp and connections.cpp: what a round of `HandleWriteEvents` leaves of a connection that is to be
-- closed after its bytes are out.
use redisproxy.Base.{
  ℕ, zero, suc, ◌≡◌, ◌<◌, ◌-◌, ◌∙◌, ap, refl, Bool, true, false, Option, none, some, [], ◌∷◌, Bytes,
  length, arith, ◌==◌, ltb, Bool-cases, inl, inr,
}
use redisproxy.Base.Int.{pos}
use redisproxy.Error.{Error, ok, closed, try_again}
use redisproxy.Mem.{Ptr}
use redisproxy.Event.{Epoll, Writes}
use redisproxy.Event.Listed.{find}
use redisproxy.Buffer.View
use redisproxy.Conn.{
  Connection, Net, M, Answer, moved, ◌>>=◌, write_out, conn_write, after_write, on_writable,
}
use redisproxy.Conn.Window.{past, cleared}
use redisproxy.Conn.Laws.{load_step, moved_to, at_self}
use redisproxy.Conn.Polling.{head_id, after, write_loop, handle_write_events}
use redisproxy.Conn.Shut.{with, close_event_total}

module _ (E : Epoll) {O S : Type 0} (on_end : Ptr → M E.State O S Error) where
  after_write-closes :
      (net : Net E.State O S) (p : Ptr) (c : Connection O) (sent_out : Bool)
      → net.conns p ≡ some c
      → c.watched ≡ false
      → c.flag.close ≡ true
      → (s : E.State) × (after_write E on_end p sent_out net ≡ some (closed, with E net p none s))
  unfolding after_write
  after_write-closes net p c sent_out h unwatched shut =
      let (err, s, r) = close_event_total E on_end net p c h unwatched in
      (s, load_step net p c _ h ∙ rw (shut, r, ◌>>=◌) refl)

  -- What `OnWritable` leaves of the connection at `p`: nothing, and the list as it was.
  abbrev Leaves : Net E.State O S → Ptr → Option (Error × Net E.State O S) → Type 0
  Leaves net p out =
      (net' : Net E.State O S) × (out ≡ some (closed, net'))
      × (net'.conns p ≡ none)
      × (net'.writes ≡ net.writes)

  module _ (net : Net E.State O S) (p : Ptr) (c : Connection O) (answer : Answer)
      (h : net.conns p ≡ some c) (unwatched : c.watched ≡ false) (shut : c.flag.close ≡ true)
      (t : (length c.send_buffer == 0) ≡ false) where
    -- `write` takes some of the bytes, or none.
    waits-Leaves :
        (rest : Bytes)
        → write_out p answer c.event net.writes c.send_buffer
          ≡ some (try_again, c.event, net.writes, rest)
        → Leaves net p (on_writable E on_end p answer net)
    unfolding on_writable conn_write
    waits-Leaves rest r =
        let c₁ : Connection O = record c {
          send_buffer = rest;
          place = past (length c.send_buffer - length rest) c.place;
        } in
        let net₁ = moved_to net p c₁ net.writes in
        let (s, e) =
          after_write-closes net₁ p c₁ false (at_self net.conns p (some c₁)) unwatched shut in
        (
          with E net₁ p none s,
          load_step net p c _ h ∙ rw (t, h, r, ◌>>=◌) e,
          at_self net₁.conns p none,
          refl,
        )

    done-Leaves :
        write_out p answer c.event net.writes c.send_buffer
          ≡ some (ok, c.event, net.writes, c.send_buffer)
        → Leaves net p (on_writable E on_end p answer net)
    unfolding on_writable conn_write
    done-Leaves r =
        let c₁ : Connection O = record c {
          place = past (length c.send_buffer - length c.send_buffer) c.place;
        } in
        let c₂ : Connection O = record c₁ { send_buffer = []; place = cleared c₁.place } in
        let net₁ = moved_to net p c₁ net.writes in
        let net₂ = moved_to net₁ p c₂ net.writes in
        let (s, e) =
          after_write-closes net₂ p c₂ true (at_self net₁.conns p (some c₂)) unwatched shut in
        (
          with E net₂ p none s,
          load_step net p c _ h
              ∙ rw (t, h, r, ◌>>=◌) (load_step net₁ p c₁ _ (at_self net.conns p (some c₁)) ∙ e),
          at_self net₂.conns p none,
          refl,
        )

  on_writable-Leaves :
      (net : Net E.State O S) (p : Ptr) (c : Connection O) (n : ℕ)
      → net.conns p ≡ some c
      → c.watched ≡ false
      → c.flag.close ≡ true
      → (length c.send_buffer == 0) ≡ false
      → Leaves net p (on_writable E on_end p (moved n) net)
  unfolding write_out
  on_writable-Leaves net p c zero h unwatched shut t =
      waits-Leaves net p c (moved zero) h unwatched shut t c.send_buffer refl
  on_writable-Leaves net p c (suc n) h unwatched shut t =
      elim (Bool-cases (ltb (suc n) (length c.send_buffer))) [
        | inl y ↦
            waits-Leaves net p c (moved (suc n)) h unwatched shut t
              (View.offset c.send_buffer (suc n) (pos 0)) (rw y refl)
        | inr m ↦ done-Leaves net p c (moved (suc n)) h unwatched shut t (rw m refl)
      ]

  -- A list with one node.
  module _ (answers : Ptr → Answer) (net : Net E.State O S) (p : Ptr) (i : ℕ)
      (one : net.writes.nodes ≡ record { id = i; event = p } ∷ []) where
    self : (i == i) ≡ true
    self = ground arith

    find_one : find i net.writes.nodes ≡ some p
    find_one = ap (find i) one ∙ rw self refl

    after_one : after i net.writes.nodes ≡ some none
    unfolding after
    after_one = ap (after i) one ∙ rw self refl

    loop_end :
        (net' : Net E.State O S) (err : Error)
        → on_writable E on_end p (answers p) net ≡ some (err, net')
        → write_loop E on_end answers 2 (some i) net ≡ some (tt, net')
    unfolding write_loop
    loop_end net' err r = rw (find_one, after_one, r, write_loop) refl

    loop_fault :
        on_writable E on_end p (answers p) net ≡ none
        → write_loop E on_end answers 2 (some i) net ≡ none
    unfolding write_loop
    loop_fault r = rw (find_one, after_one, r, write_loop) refl

    one_round :
        (net' : Net E.State O S) (err : Error)
        → on_writable E on_end p (answers p) net ≡ some (err, net')
        → handle_write_events E on_end answers net ≡ some (ok, net')
    unfolding handle_write_events
    one_round net' err r = rw (ap length one, ap head_id one) (rw (loop_end net' err r, ◌>>=◌) refl)

    no_round :
        on_writable E on_end p (answers p) net ≡ none
        → handle_write_events E on_end answers net ≡ none
    unfolding handle_write_events
    no_round r = rw (ap length one, ap head_id one) (rw (loop_fault r, ◌>>=◌) refl)

  gone :
      (net : Net E.State O S) (p : Ptr) (answer : Answer)
      → net.conns p ≡ none
      → on_writable E on_end p answer net ≡ none
  unfolding on_writable
  gone net p answer h = rw (h, ◌>>=◌) refl

  -- Where the only event in the list is that of a connection that has the close flag and bytes to
  -- write, and `write` takes none of them, some or all: a round of `HandleWriteEvents` returns OK, and
  -- has closed and deleted the connection, whose event is still in the list; the next round, whatever
  -- `write` answers, is a fault, the use of the deleted connection. (No handler is set for the end of the
  -- connection, as is so for those of clients.)
  pub handle_write_events-stale :
      (answers : Ptr → Answer) (net : Net E.State O S) (p : Ptr) (c : Connection O) (i n : ℕ)
      → net.writes.nodes ≡ record { id = i; event = p } ∷ []
      → net.conns p ≡ some c
      → c.watched ≡ false
      → c.flag.close ≡ true
      → 0 < length c.send_buffer
      → answers p ≡ moved n
      → (net' : Net E.State O S) × (handle_write_events E on_end answers net ≡ some (ok, net'))
        × (net'.conns p ≡ none)
        × ((next : Ptr → Answer) → handle_write_events E on_end next net' ≡ none)
  unfolding handle_write_events write_loop after
  handle_write_events-stale answers net p c i n one h unwatched shut waits a =
      let t : (length c.send_buffer == 0) ≡ false = ground arith in
      let (net', r, no_more, same) = on_writable-Leaves net p c n h unwatched shut t in
      (
        net',
        one_round answers net p i one net' closed (ap (λ x. on_writable E on_end p x net) a ∙ r),
        no_more,
        λ next.
            no_round next net' p i (ap (λ (w : Writes). w.nodes) same ∙ one)
              (gone net' p (next p) no_more),
      )
