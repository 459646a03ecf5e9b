-- ===== src/Conn/Trace.antt =====
-- connections.cpp: any calls of `WriteToBuffer` and `OnWritable` on a connection, one after another.
use redisproxy.Base.{
  ℕ, ◌≡◌, ◌∙◌, ap, sym, refl, Bool, true, false, not, ◌&&◌, ◌||◌, append-nil, length-append, Option,
  none, some, List, [], ◌∷◌, ◌++◌, Bytes, length, append_assoc, arith, ◌==◌,
}
use redisproxy.Error.{Error, is_none}
use redisproxy.Mem.{Ptr}
use redisproxy.Event.{Epoll}
use redisproxy.Conn.{Connection, Net, M, no_flags, Answer, write_to_buffer, on_writable}
use redisproxy.Conn.Window.{Place, append_place}
use redisproxy.Conn.Laws.{InOrder, moved_to, at_self, write_to_buffer_total}
use redisproxy.Conn.Order.{taken, IsAnswer, on_writable_total}

-- What happens to a connection: bytes are given to `WriteToBuffer`, or `OnWritable` is called, and the
-- system answers `write` as told.
pub data Action : Type 0 where
  gives : Bytes → Action
  polls : Answer → Action

abbrev pub given : List Action → Bytes
given [] = []
given (gives bytes ∷ acts) = bytes ++ given acts
given (polls answer ∷ acts) = given acts

abbrev pub AreAnswers : List Action → Type 0
AreAnswers [] = Unit {0}
AreAnswers (gives bytes ∷ acts) = AreAnswers acts
AreAnswers (polls answer ∷ acts) = IsAnswer answer × AreAnswers acts

-- Bytes wait only where the bit `EPOLLOUT` is set.
abbrev pub IsArmed : {O : Type 0} → Connection O → Type 0
IsArmed c = (length c.send_buffer == 0) ≡ false → c.event.events.out_bit ≡ true

and_parts : (a b : Bool) → (a && b) ≡ true → (a ≡ true) × (b ≡ true)
and_parts a b h = ground arith

closed_not : (b : Bool) → b ≡ false → (b || (false || false)) ≡ false
closed_not b h = ground arith

-- Where bytes are left, there were bytes.
waits_on : (xs ys zs : Bytes) → xs ++ ys ≡ zs → (length ys == 0) ≡ false → (length zs == 0) ≡ false
waits_on xs ys zs e h = ground (arith, length-append xs ys, ap length e)

-- A call of `memcpy` that overlaps is not forgotten.
append_place-overlapped :
    (s : Place) (size n : ℕ) → s.overlapped ≡ true → (append_place s size n).overlapped ≡ true
unfolding append_place
append_place-overlapped s size n m = ground (arith, m)

module _ (E : Epoll) {O S : Type 0} (on_end : Ptr → M E.State O S Error) (p : Ptr) where
  -- The bytes that the system has taken, in order, whether all calls returned OK, and the program.
  unfoldable pub run : List Action → Net E.State O S → Option (Bytes × Bool × Net E.State O S)
  run [] net = some ([], true, net)
  run (gives bytes ∷ acts) net = elim (write_to_buffer p bytes no_flags net) [
    | none ↦ none
    | some (err, net') ↦ elim (run acts net') [
      | none ↦ none
      | some (sent, good, last) ↦ some (sent, is_none err && good, last)
    ]
  ]
  run (polls answer ∷ acts) net = elim (net.conns p) [
    | none ↦ none
    | some c ↦ elim (on_writable E on_end p answer net) [
      | none ↦ none
      | some (err, net') ↦ elim (run acts net') [
        | none ↦ none
        | some (sent, good, last) ↦
            some (taken answer c.send_buffer ++ sent, is_none err && good, last)
      ]
    ]
  ]

  -- Calls of `WriteToBuffer` with no flags and of `OnWritable`, in any order, on a connection without the
  -- close flag, whose list of events is in order, where `write` takes what it likes or fails with an
  -- `errno`: every call comes back. If no `AppendCapacity` among them has called `memcpy` on ranges that
  -- overlap, what the system has taken, followed by what is still in the send buffer, is what was in the
  -- buffer at first, followed by the bytes given, each in order. A call of `memcpy` that overlaps is not
  -- forgotten. While all calls return OK, bytes wait only where the bit `EPOLLOUT` is set, so that the next
  -- round will write them.
  pub run-conserves :
      (acts : List Action) (net : Net E.State O S) (c : Connection O)
      → InOrder net
      → net.conns p ≡ some c
      → c.flag.close ≡ false
      → AreAnswers acts
      → (sent : Bytes) × (good : Bool) × (net' : Net E.State O S) × (c' : Connection O) × (run acts
            net
          ≡ some (sent, good, net'))
        × (net'.conns p ≡ some c')
        × (c'.place.overlapped ≡ false → sent ++ c'.send_buffer ≡ c.send_buffer ++ given acts)
        × (c.place.overlapped ≡ true → c'.place.overlapped ≡ true)
        × (good ≡ true → IsArmed c → IsArmed c')
  unfolding run
  run-conserves [] net c v h open_ a =
      ([], true, net, c, refl, h, λ _. sym (append-nil c.send_buffer), λ m. m, λ _ w. w)
  run-conserves (gives bytes ∷ acts) net c v h open_ a =
      let (e, w, (r, v'), b) = write_to_buffer_total net p c bytes no_flags v h in
      let (sent, good, net', c', r', h', k, marked, armed) =
        run-conserves acts (moved_to net p _ w) _ v' (at_self net.conns p (some _))
          (closed_not c.flag.close open_) a in
      (
        sent,
        good,
        net',
        c',
        rw (r, r', run) refl,
        h',
        λ clean. k clean ∙ append_assoc c.send_buffer bytes (given acts),
        λ m. marked (append_place-overlapped c.place (length c.send_buffer) (length bytes) m),
        λ g _. armed g (λ _. b),
      )
  run-conserves (polls answer ∷ acts) net c v h open_ (a, rest) =
      let (err, e, w, buffer, s, (r, v'), t, arm, _, _, mark) =
        on_writable_total E on_end net p c v h open_ answer a in
      let (sent, good, net', c', r', h', k, marked, armed) =
        run-conserves acts (moved_to net p _ w) _ v' (at_self net.conns p (some _)) open_ rest in
      (
        taken answer c.send_buffer ++ sent,
        is_none err && good,
        net',
        c',
        rw (h, r, r', run) refl,
        h',
        λ clean.
            append_assoc (taken answer c.send_buffer) sent c'.send_buffer
            ∙ ap (◌++◌ (taken answer c.send_buffer)) (k clean)
            ∙ sym (append_assoc (taken answer c.send_buffer) buffer (given acts))
            ∙ ap (λ s. s ++ given acts) t,
        λ m. marked (mark.0 ∙ m),
        λ both f.
            let (fine, rest_fine) = and_parts (is_none err) good both in
            armed rest_fine (λ waits.
              arm fine (f (waits_on (taken answer c.send_buffer) buffer c.send_buffer t waits))
              ∙ ap not waits),
      )
