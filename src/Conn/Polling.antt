-- ===== src/Conn/Polling.antt =====
-- `Event::HandleWriteEvents` of src/netio.cpp. What `write` answers for each event is an argument: it is
-- called at most once for each in a round.
use redisproxy.Base.{
  ℕ, zero, suc, ◌+◌, Option, none, some, List, [], ◌∷◌, length, ◌==◌, if◌then◌else◌,
}
use redisproxy.Error.{Error, ok}
use redisproxy.Mem.{Ptr}
use redisproxy.Event.{Epoll, Node}
use redisproxy.Event.Listed.{find}
use redisproxy.Conn.{M, Answer, on_writable, pure, ◌>>◌}

-- An iterator is the node that it is at, or `none` at the end. `begin()`, and `++it` of an iterator that is
-- at the node `i`; `none` is that the node is not in the list any more.
abbrev pub head_id : List Node → Option ℕ
head_id [] = none
head_id (n ∷ ns) = some n.id

unfoldable pub after : ℕ → List Node → Option (Option ℕ)
after i [] = none
after i (n ∷ ns) = let rest = after i ns in if n.id == i then some (head_id ns) else rest

module _ (E : Epoll) {O S : Type 0} (on_end : Ptr → M E.State O S Error)
    (answers : Ptr → Answer) where
  -- The loop, which has moved its iterator on before it calls `OnWritable`. `none` is a fault, or no fuel.
  unfoldable pub write_loop : ℕ → Option ℕ → M E.State O S (Unit {0})
  unfolding after
  write_loop zero it net = none
  write_loop (suc fuel) none net = some (tt, net)
  write_loop (suc fuel) (some i) net = elim (find i net.writes.nodes) [
    | none ↦ none
    | some p ↦ elim (after i net.writes.nodes) [
      | none ↦ none
      | some it ↦ elim (on_writable E on_end p (answers p) net) [
        | none ↦ none
        | some (err, net') ↦ write_loop fuel it net'
      ]
    ]
  ]

  -- `HandleWriteEvents()`: as many rounds as the list has nodes, and one for its end.
  unfoldable pub handle_write_events : M E.State O S Error
  handle_write_events net =
      (write_loop (length net.writes.nodes + 1) (head_id net.writes.nodes) >> pure ok) net
