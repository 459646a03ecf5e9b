-- ===== src/Conn/Overlap.antt =====
-- connections.cpp and buffer.cpp: how the send buffer of a connection is moved over itself.
use redisproxy.Base.{
  ℕ, suc, ◌+◌, ◌≡◌, ◌<◌, ◌≤◌, ◌∙◌, ap, refl, true, false, some, [], ◌∷◌, Bytes, length, take,
  length-append, length-take, arith, ◌++◌,
}
use redisproxy.Mem.{Ptr}
use redisproxy.Event.{Epoll}
use redisproxy.Error.{Error}
use redisproxy.Conn.{Connection, Net, M, moved, no_flags, join}
use redisproxy.Conn.Window.{Place, append_place}
use redisproxy.Conn.Laws.{InOrder, moved_to, at_self, write_to_buffer_total}
use redisproxy.Conn.Order.{on_writable_total}
use redisproxy.Conn.Trace.{gives, polls, run}

module _ (s : Place) (size n : ℕ) (wide : s.offset < size) (more : s.capacity < s.offset + size + n)
    (enough : n ≤ s.offset) (whole : s.capacity ≡ s.offset + size) where
  overlaps : (append_place s size n).overlapped ≡ true
  unfolding append_place
  overlaps = ground (arith, wide, more, enough, whole)

module _ (E : Epoll) {O S : Type 0} (on_end : Ptr → M E.State O S Error) (p : Ptr) where
  -- Where the bytes that wait fill the block of the send buffer, the system takes less than half of them,
  -- and then bytes are given, at most as many as were taken: both calls return OK, and `AppendCapacity` has
  -- called `memcpy` on two ranges that overlap, for which its behaviour is not defined. (The connection
  -- has no close flag, and the list of events to write is in order.)
  pub run-overlaps :
      (n : ℕ) (bytes : Bytes) (net : Net E.State O S) (c : Connection O)
      → InOrder net
      → net.conns p ≡ some c
      → c.flag.close ≡ false
      → c.place.offset ≡ 0
      → c.place.capacity ≡ length c.send_buffer
      → suc n + suc n < length c.send_buffer
      → 0 < length bytes
      → length bytes ≤ suc n
      → (sent : Bytes) × (net' : Net E.State O S) × (c' : Connection O) × (run E on_end p
            (polls (moved (suc n)) ∷ gives bytes ∷ [])
            net
          ≡ some (sent, true, net'))
        × (net'.conns p ≡ some c')
        × (c'.place.overlapped ≡ true)
  unfolding run
  run-overlaps n bytes net c v h open_ first full half some_more few =
      let (err, e, w, buffer, s, (r, v'), t, _, _, fine, (_, same, at_s)) =
        on_writable_total E on_end net p c v h open_ (moved (suc n)) tt in
      let c₁ : Connection O = record c { event = e; send_buffer = buffer; place = s } in
      let net₁ = moved_to net p c₁ w in
      let (e₂, w₂, (r₂, _), _) =
        write_to_buffer_total net₁ p c₁ bytes no_flags v' (at_self net.conns p (some c₁)) in
      let c₂ : Connection O = record c₁ {
        event = e₂;
        send_buffer = buffer ++ bytes;
        place = append_place s (length buffer) (length bytes);
        flag = join c.flag no_flags;
      } in
      let left : suc n + length buffer ≡ length c.send_buffer = omega (
        arith,
        ap length t,
        length-append (take (suc n) c.send_buffer) buffer,
        length-take (suc n) c.send_buffer,
        half,
      ) in
      let away : s.offset ≡ suc n =
        at_s (ground (arith, left, half)) ∙ omega (arith, left, first) in
      (
        take (suc n) c.send_buffer ++ [],
        moved_to net₁ p c₂ w₂,
        c₂,
        rw (h, r, r₂, fine (suc n) refl, run) refl,
        at_self net₁.conns p (some c₂),
        overlaps s (length buffer) (length bytes) (omega (arith, away, left, half))
            (omega (arith, away, left, same, full, some_more)) (omega (arith, away, few))
            (omega (arith, away, left, same, full)),
      )
