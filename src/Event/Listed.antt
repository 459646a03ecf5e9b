-- ===== src/Event/Listed.antt =====
-- epoll.cpp: the events in the list `writeEvents` are those with the bit `EPOLLOUT`, each once.
use redisproxy.Base.{
  ℕ, suc, ◌+◌, ◌<◌, ◌≡◌, ◌≢◌, ◌∙◌, ap, sym, refl, Bool, true, false, Option, none, some, List, [],
  ◌∷◌, ◌++◌, arith, if◌then◌else◌, not, Bool-cases, inl, inr, ◌==◌, ==_iff,
}
use mathlib.Core.Option.{some-injective}
use native.Mathlib.Decide.{ℕ_discrete}
use mathlib.Core.Bool.{false≢true}
use mathlib.Core.Path.{fun_ext, subst}
use redisproxy.Mem.{Ptr}
use redisproxy.Error.{ok}
use redisproxy.Event.{Event, Node, Writes, erase, set_writable, put, epollout}

-- How often an event stands in the list, and the event that the node at `i` holds.
abbrev pub listed : Ptr → List Node → ℕ
listed p [] = 0
listed p (n ∷ ns) = (if n.event == p then 1 else 0) + listed p ns

abbrev pub find : ℕ → List Node → Option Ptr
find i [] = none
find i (n ∷ ns) = if n.id == i then some n.event else find i ns

abbrev pub Below : ℕ → List Node → Type 0
Below k [] = Unit
Below k (n ∷ ns) = (n.id < k) × Below k ns

Below-suc : (k : ℕ) (ns : List Node) → Below k ns → Below (suc k) ns
Below-suc k [] b = tt
Below-suc k (n ∷ ns) b = (omega arith, Below-suc k ns b.1)

find-Below : (i k : ℕ) (ns : List Node) {p : Ptr} → Below k ns → find i ns ≡ some p → i < k
find-Below i k [] b e = cc
find-Below i k (n ∷ ns) {p} b e = ground (arith, find-Below i k ns {p = p} b.1)

-- The list behind `erase`.
erase_lem :
    (i : ℕ) (ns : List Node) (p : Ptr)
    → find i ns ≡ some p
    → (ns' : List Node) × (erase i ns ≡ some ns')
      × ((q : Ptr) → listed q ns ≡ listed q ns' + (if p == q then 1 else 0))
      × ((j : ℕ) → j ≢ i → find j ns' ≡ find j ns)
      × ((k : ℕ) → Below k ns → Below k ns')
unfolding erase
erase_lem i [] p e = absurd (cc)
erase_lem i (n ∷ ns) p e = elim (Bool-cases (n.id == i)) [
  | inl y ↦ (ns, rw y refl, λ q. ground (arith, y, e), λ j ne. ground (arith, y), λ k b. b.1)
  | inr m ↦
      let (ns', r, l, f, b) = erase_lem i ns p (rw m at e) in
      (
        n ∷ ns',
        rw (m, r) refl,
        λ q. omega (arith, l q),
        λ j ne. ground (arith, f j ne),
        λ k c. (c.0, b k c.1),
      )
]

module _ (n : Node) where
  listed-append :
      (q : Ptr) (ns : List Node)
      → listed q (ns ++ n ∷ []) ≡ listed q ns + (if n.event == q then 1 else 0)
  listed-append q [] = omega arith
  listed-append q (m ∷ ns) = omega (arith, listed-append q ns)

  find-append : (j : ℕ) (ns : List Node) → j ≢ n.id → find j (ns ++ n ∷ []) ≡ find j ns
  find-append j [] ne = ground arith
  find-append j (m ∷ ns) ne = ground (arith, find-append j ns)

  find-append_self : (ns : List Node) → Below n.id ns → find n.id (ns ++ n ∷ []) ≡ some n.event
  find-append_self [] b = ground arith
  find-append_self (m ∷ ns) b = ground (arith, find-append_self ns)

  Below-append : (k : ℕ) (ns : List Node) → n.id < k → Below k ns → Below k (ns ++ n ∷ [])
  Below-append k [] h b = (h, tt)
  Below-append k (m ∷ ns) h b = (b.0, Below-append k ns h b.1)

-- The program's events, by address.
abbrev pub Events : Type 0
Events = Ptr → Event

abbrev pub update : Events → Ptr → Event → Events
update es p e q = if p == q then e else es q

-- The list holds exactly the events with the bit, each once, at the node that the event knows.
pub record IsListed (es : Events) (w : Writes) : Type 0 where
  pub below : Below w.next_id w.nodes
  pub once : (p : Ptr) → listed p w.nodes ≡ (if (es p).events.out_bit then 1 else 0)
  pub at : (p : Ptr) → (es p).events.out_bit ≡ true → find (es p).write_list_pos w.nodes ≡ some p

same_id :
    (es : Events) (w : Writes)
    → IsListed es w
    → (p q : Ptr) → (es p).events.out_bit ≡ true
    → (es q).events.out_bit ≡ true
    → p ≢ q
    → (es q).write_list_pos ≢ (es p).write_list_pos
same_id es w v p q a b ne e =
    ne (some-injective _ _ (sym (v.at p a) ∙ ap (λ i. find i w.nodes) (sym e) ∙ v.at q b))

abbrev on_event : Event → Writes → Event
on_event e w = record e { events = put e.events epollout true; write_list_pos = w.next_id }

abbrev new_node : Ptr → Writes → Node
new_node p w = record { id = w.next_id; event = p }

abbrev on_writes : Ptr → Writes → Writes
on_writes p w = record { nodes = w.nodes ++ new_node p w ∷ []; next_id = suc w.next_id }

abbrev off_event : Event → Event
off_event e = record e { events = put e.events epollout false }

ne_test : (p q : ℕ) → p ≢ q → (p == q) ≡ false
ne_test p q ne = ground arith

IsListed-on :
    (es : Events) (w : Writes) (p : Ptr)
    → IsListed es w
    → (es p).events.out_bit ≡ false
    → IsListed (update es p (on_event (es p) w)) (on_writes p w)
IsListed-on es w p v b = record {
  below =
      Below-append (new_node p w) (suc w.next_id) w.nodes (omega arith)
        (Below-suc w.next_id w.nodes v.below);
  once = λ q. elim (ℕ_discrete p q) [
    | yes e ↦
        let t = (==_iff p q).1 e in
        rw t (
          ground (
            arith,
            listed-append (new_node p w) q w.nodes,
            v.once q,
            ap (λ r. (es r).events.out_bit) e,
          ))
    | no ne ↦
        let t = ne_test p q ne in
        rw t (ground (arith, listed-append (new_node p w) q w.nodes, v.once q))
  ];
  at = λ q. elim (ℕ_discrete p q) [
    | yes e ↦
        let t = (==_iff p q).1 e in
        rw t (λ _. find-append_self (new_node p w) w.nodes v.below ∙ ap some e)
    | no ne ↦
        let t = ne_test p q ne in
        rw t (λ o.
          let at = v.at q o in
          find-append (new_node p w) (es q).write_list_pos w.nodes
            (let lt = find-Below (es q).write_list_pos w.next_id w.nodes v.below at in omega arith)
          ∙ at)
  ];
}

IsListed-off :
    (es : Events) (w : Writes) (p : Ptr) (ns' : List Node)
    → IsListed es w
    → (es p).events.out_bit ≡ true
    → ((q : Ptr) → listed q w.nodes ≡ listed q ns' + (if p == q then 1 else 0))
    → ((j : ℕ) → j ≢ (es p).write_list_pos → find j ns' ≡ find j w.nodes)
    → Below w.next_id ns'
    → IsListed (update es p (off_event (es p))) (record w { nodes = ns' })
IsListed-off es w p ns' v b l f c = record {
  below = c;
  once = λ q. elim (ℕ_discrete p q) [
    | yes e ↦
        let t = (==_iff p q).1 e in
        rw t (ground (arith, l q, v.once p, e, v.once q, ap (λ r. (es r).events.out_bit) e))
    | no ne ↦ let t = ne_test p q ne in rw t (ground (arith, l q, v.once q))
  ];
  at = λ q. elim (ℕ_discrete p q) [
    | yes e ↦ let t = (==_iff p q).1 e in rw t (λ o. absurd (false≢true o))
    | no ne ↦
        let t = ne_test p q ne in
        rw t (λ o. f (es q).write_list_pos (same_id es w v p q b o ne) ∙ v.at q o)
  ];
}

pub update_self : (es : Events) (p : Ptr) → update es p (es p) ≡ es
update_self es p = fun_ext (λ q. elim (ℕ_discrete p q) [
  | yes e ↦ let t = (==_iff p q).1 e in rw t (ap es e)
  | no ne ↦ let t = ne_test p q ne in rw t
])

-- What a call of `SetWritable` does, where the list is as it should be: it succeeds, and the event
-- has the bit as asked.
abbrev pub Stepped : Ptr → Bool → Events → Writes → Type 0
Stepped p flag es w =
    (e : Event) × (w' : Writes) × (set_writable p flag (es p) w ≡ some (ok, e, w'))
    × IsListed (update es p e) w'
    × (e.events.out_bit ≡ flag)

idle :
    (p : Ptr) (flag : Bool) (es : Events) (w : Writes)
    → IsListed es w
    → (es p).events.out_bit ≡ flag
    → Stepped p flag es w
unfolding set_writable
idle p true es w v b =
    (es p, w, simp b refl, subst (λ r. IsListed r w) (sym (update_self es p)) v, b)
idle p false es w v b =
    (es p, w, simp b refl, subst (λ r. IsListed r w) (sym (update_self es p)) v, b)

changed :
    (p : Ptr) (flag : Bool) (es : Events) (w : Writes)
    → IsListed es w
    → (es p).events.out_bit ≡ not flag
    → Stepped p flag es w
unfolding set_writable
changed p true es w v b =
    (on_event (es p) w, on_writes p w, rw b refl, IsListed-on es w p v b, refl)
changed p false es w v b =
    let (ns', r, l, f, c) = erase_lem (es p).write_list_pos w.nodes p (v.at p b) in
    (
      off_event (es p),
      record w { nodes = ns' },
      rw (b, r) refl,
      IsListed-off es w p ns' v b l f (c w.next_id v.below),
      refl,
    )

pub set_writable_total :
    (p : Ptr) (flag : Bool) (es : Events) (w : Writes) → IsListed es w → Stepped p flag es w
set_writable_total p true es w v = elim (Bool-cases (es p).events.out_bit) [
  | inl b ↦ idle p true es w v b
  | inr b ↦ changed p true es w v b
]
set_writable_total p false es w v = elim (Bool-cases (es p).events.out_bit) [
  | inl b ↦ changed p false es w v b
  | inr b ↦ idle p false es w v b
]

-- Calls of `SetWritable` on the program's events; `none` is an erasure out of place.
pub run : List (Ptr × Bool) → Events → Writes → Option (Events × Writes)
run [] es w = some (es, w)
run ((p, flag) ∷ calls) es w = elim (set_writable p flag (es p) w) [
  | none ↦ none
  | some (err, e, w') ↦ run calls (update es p e) w'
]

-- The last flag that a list of calls gives the event `q`; `b` if none does.
abbrev pub asked : List (Ptr × Bool) → Ptr → Bool → Bool
asked [] q b = b
asked ((p, flag) ∷ calls) q b = asked calls q (if p == q then flag else b)

-- Whatever calls of `SetWritable` are made on any events, from a list that holds exactly the events
-- with the bit `EPOLLOUT`, each once: none of them erases at a position that is not in the list,
-- the list still holds exactly the events with the bit, each once, and the bit of each event is the
-- last one asked for.
pub run-IsListed :
    (calls : List (Ptr × Bool)) (es : Events) (w : Writes)
    → IsListed es w
    → (es' : Events) × (w' : Writes) × (run calls es w ≡ some (es', w'))
      × IsListed es' w'
      × ((q : Ptr) → (es' q).events.out_bit ≡ asked calls q (es q).events.out_bit)
unfolding run
run-IsListed [] es w v = (es, w, refl, v, λ q. refl)
run-IsListed ((p, flag) ∷ calls) es w v =
    let (e, w₁, s, v₁, b) = set_writable_total p flag es w v in
    let (es', w', r, v', b') = run-IsListed calls (update es p e) w₁ v₁ in
    (es', w', rw (s, run) r, v', λ q. b' q ∙ ap (asked calls q) (ground (arith, b)))
