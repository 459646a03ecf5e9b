-- ===== src/Conn/Erasing.antt =====
-- epoll.cpp: what `SetWritable( false )` takes out of the list of events to write.
use redisproxy.Base.{
  ℕ, ◌≡◌, ◌∙◌, ap, sym, refl, false, Option, none, some, List, [], ◌∷◌, ◌++◌, arith, Bool-cases,
  Option-cases, inl, inr, ◌⊎◌, ◌==◌, ==_iff, ◌≤◌,
}
use mathlib.Core.Option.{some-injective}
use redisproxy.Error.{Error}
use redisproxy.Mem.{Ptr}
use redisproxy.Event.{Event, Node, Writes, erase, set_writable}
use redisproxy.Event.Listed.{listed, find}
use redisproxy.Conn.{Connection, Net, conn_writable}
use redisproxy.Conn.Polling.{head_id, after}

-- The list is the same, or only the node of the event is gone.
abbrev pub Keeps : Event → Writes → Writes → Type 0
Keeps e w w' = (w'.nodes ≡ w.nodes) ⊎ (erase e.write_list_pos w.nodes ≡ some w'.nodes)

abbrev list_of : {A B : Type 0} → Writes → Option (A × B × Writes) → List Node
list_of w none = w.nodes
list_of w (some (_, _, w')) = w'.nodes

abbrev list_in : {A K O S : Type 0} → Writes → Option (A × Net K O S) → List Node
list_in w none = w.nodes
list_in w (some (_, net)) = net.writes.nodes

pub set_writable-Keeps :
    (p : Ptr) (e e' : Event) (w w' : Writes) (err : Error)
    → set_writable p false e w ≡ some (err, e', w')
    → Keeps e w w'
unfolding set_writable
set_writable-Keeps p e e' w w' err h = elim (Bool-cases e.events.out_bit) [
  | inr b ↦ inl (sym (ap (list_of w) (simp b at h)))
  | inl b ↦ elim (Option-cases (erase e.write_list_pos w.nodes)) [
    | inl n ↦ inl (sym (ap (list_of w) (simp (b, n) at h)))
    | inr (ns, o) ↦ inr (o ∙ ap some (ap (list_of w) (simp (b, o) at h)))
  ]
]

pub conn_writable-Keeps :
    {K O S : Type 0} (net net' : Net K O S) (p : Ptr) (c : Connection O) (err : Error)
    → net.conns p ≡ some c
    → conn_writable p false net ≡ some (err, net')
    → Keeps c.event net.writes net'.writes
unfolding conn_writable
conn_writable-Keeps net net' p c err h r =
    elim (Option-cases (set_writable p false c.event net.writes)) [
      | inl n ↦ inl (sym (ap (list_in net.writes) (simp (h, n, conn_writable) at r)))
      | inr ((err', e', w'), o) ↦
          let same = ap (list_in net.writes) (simp (h, o, conn_writable) at r) in
          elim (set_writable-Keeps p c.event e' net.writes w' err' o) [
            | inl k ↦ inl (sym same ∙ k)
            | inr k ↦ inr (k ∙ ap some same)
          ]
    ]

listed_found : (j : ℕ) (p : Ptr) (ns : List Node) → find j ns ≡ some p → 1 ≤ listed p ns
listed_found j p [] f = absurd (cc)
listed_found j p (n ∷ ns) f = ground (arith, listed_found j p ns)

pub listed_in :
    (p : Ptr) (pre : List Node) (n : Node) (ns : List Node)
    → n.event ≡ p
    → 1 ≤ listed p (pre ++ n ∷ ns)
listed_in p [] n ns e = ground (arith, e)
listed_in p (m ∷ pre) n ns e = omega (arith, listed_in p pre n ns e)

-- The only node of an event is where its position says.
pub located :
    (j : ℕ) (p : Ptr) (pre : List Node) (n : Node) (ns : List Node)
    → n.event ≡ p
    → listed p (pre ++ n ∷ ns) ≡ 1
    → find j (pre ++ n ∷ ns) ≡ some p
    → (n.id ≡ j)
      × (erase j (pre ++ n ∷ ns) ≡ some (pre ++ ns))
      × (after j (pre ++ n ∷ ns) ≡ some (head_id ns))
unfolding erase after
located j p [] n ns e l f = elim (Bool-cases (n.id == j)) [
  | inl y ↦ ((==_iff n.id j).0 y, rw y refl, rw y refl)
  | inr m ↦ absurd (ground (arith, l, e, listed_found j p ns (simp m at f)))
]
located j p (m ∷ pre) n ns e l f =
    let one = listed_in p pre n ns e in
    elim (Bool-cases (m.id == j)) [
      | inl y ↦ absurd (ground (arith, l, one, some-injective _ _ (simp y at f)))
      | inr d ↦
          let (i, er, af) = located j p pre n ns e (ground (arith, l, one)) (simp d at f) in
          (i, rw (d, er) refl, rw (d, af) refl)
    ]

pub listed_alone :
    (p : Ptr) (pre : List Node) (n : Node) (ns : List Node)
    → n.event ≡ p
    → listed p (pre ++ n ∷ ns) ≡ 1
    → listed p ns ≡ 0
listed_alone p [] n ns e l = ground (arith, e, l)
listed_alone p (m ∷ pre) n ns e l =
    listed_alone p pre n ns e (ground (arith, l, listed_in p pre n ns e))
