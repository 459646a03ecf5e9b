-- ===== src/Recycle/Fifo.antt =====
-- The ring of recycle.h behaves as a first-in first-out queue of at most `size - 1` elements.
use redisproxy.Base.{
  ℕ, get_or_default, length-set, ◌^◌, zero, suc, ◌+◌, ◌-◌, ◌<◌, ◌≡◌, ◌≢◌, ◌⊎◌, ◌∙◌, refl, ap, ap₂,
  true, false, List, [], ◌∷◌, ◌++◌, length, get_or, set, get_or-set_self, get_or-set_ne, ◌==◌,
  if◌then◌else◌, arith,
}
use native.Mathlib.Decide.{ℕ_discrete}
use redisproxy.Error.{Error, ok, full, empty}
use redisproxy.Recycle.{Recycle, advance, push, pop}
use redisproxy.Recycle.Valid.{
  IsValid, advance_cases, count, push-IsValid, pop-IsValid, length-push, length-pop,
}

-- Place `e` is the one behind the `k` elements from place `i` on.
abbrev pub Behind : ℕ → ℕ → ℕ → ℕ → Type 0
Behind n i k e = (i + k ≡ e) ⊎ (i + k ≡ e + n)

-- The queue that a client sees.
module _ {ℓ} {A : Type ℓ} where
  unfoldable pub fifo_push : ℕ → List A → A → Error × List A
  fifo_push cap q x = if length q == cap then (full, q) else (ok, q ++ x ∷ [])

  unfoldable pub fifo_pop : List A → A → Error × A × List A
  fifo_pop [] x = (empty, x, [])
  fifo_pop (y ∷ q) x = (ok, y, q)

  -- The `k` elements from place `i` on, in a ring of `n` places.
  abbrev pub window : A → List A → ℕ → ℕ → ℕ → List A
  window d buf n i zero = []
  window d buf n i (suc k) = get_or buf i d ∷ window d buf n (advance i n) k

  -- What the ring holds, oldest first. `d` stands for a place out of range, which no valid ring has.
  abbrev pub contents : A → Recycle A → List A
  contents d r = window d r.holder (length r.holder) r.start (count r)

  length-window : (d : A) (buf : List A) (n i k : ℕ) → length (window d buf n i k) ≡ k
  length-window d buf n i zero = refl
  length-window d buf n i (suc k) = ap suc (length-window d buf n (advance i n) k)

  pub length-contents : (d : A) (r : Recycle A) → length (contents d r) ≡ count r
  length-contents d r = length-window d r.holder (length r.holder) r.start (count r)

  -- A write behind a window adds the element to it.
  window-set :
      (d : A) (buf : List A) (x : A) (i e k : ℕ)
      → i < length buf
      → e < length buf
      → length buf < 2 ^ 64
      → k < length buf
      → Behind (length buf) i k e
      → window d (set buf e x) (length buf) i (suc k) ≡ window d buf (length buf) i k ++ x ∷ []
  window-set d buf x i e zero hi he hn hk b =
      let q : i ≡ e = omega arith in rw (q, get_or-set_self buf e x d he)
  window-set d buf x i e (suc k) hi he hn hk b =
      let c = advance_cases i (length buf) hi hn in
      ap₂ ◌∷◌ (get_or-set_ne buf x d (omega arith)) (
        window-set d buf x (advance i (length buf)) e k (omega (arith, c)) he hn (omega arith)
          (omega (arith, c)))

  pub count-Behind : {r : Recycle A} → IsValid r → Behind (length r.holder) r.start (count r) r.end
  count-Behind v = ground arith

  push-full :
      {r : Recycle A} (x : A)
      → IsValid r
      → advance r.end (length r.holder) ≡ r.start
      → (push r x ≡ (full, r)) × (count r + 1 ≡ length r.holder)
  unfolding push
  push-full {r} x v e = ground (arith, advance_cases r.end (length r.holder) v.end_lt v.size_lt)

  push-room :
      {r : Recycle A} (x : A)
      → IsValid r
      → advance r.end (length r.holder) ≢ r.start
      → ((push r x).0 ≡ ok)
        × (count (push r x).1 ≡ suc (count r))
        × (count r + 1 < length r.holder)
        × ((push r x).1.holder ≡ set r.holder r.end x)
        × ((push r x).1.start ≡ r.start)
  unfolding push
  push-room {r} x v e =
      ground (
        arith,
        length-set r.holder r.end x,
        advance_cases r.end (length r.holder) v.end_lt v.size_lt,
      )

  shifted :
      (d : A) (r r' : Recycle A) (x : A)
      → count r' ≡ suc (count r)
      → r'.holder ≡ set r.holder r.end x
      → r'.start ≡ r.start
      → contents d r' ≡ window d (set r.holder r.end x) (length r.holder) r.start (suc (count r))
  shifted d r r' x c h s =
      let n = ap length h ∙ length-set r.holder r.end x in λ i. window d (h i) (n i) (s i) (c i)

  -- `Push` on a valid ring is a push on the bounded queue that it stands for.
  pub push_refines :
      {r : Recycle A} (d x : A)
      → IsValid r
      → let (s, r') = push r x in
        (s, contents d r') ≡ fifo_push (length r.holder - 1) (contents d r) x
  unfolding fifo_push
  push_refines {r} d x v = elim (ℕ_discrete (advance r.end (length r.holder)) r.start) [
    | yes e ↦
        let (p, n) = push-full x v e in
        let t : (length (contents d r) == length r.holder - 1) ≡ true =
          ground (arith, length-contents d r) in
        rw (p, t)
    | no ne ↦
        let (a, c, lt, h, s) = push-room x v ne in
        let t : (length (contents d r) == length r.holder - 1) ≡ false =
          ground (arith, length-contents d r) in
        rw (a, t)
          (ap (λ q. (ok, q))
            (shifted d r (push r x).1 x c h s
              ∙ window-set d r.holder x r.start r.end (count r) v.start_lt v.end_lt v.size_lt
                  (omega arith) (count-Behind v)))
  ]

  pop-empty : (r : Recycle A) (x : A) → r.start ≡ r.end → pop r x ≡ (empty, x, r)
  unfolding pop
  pop-empty r x e = let t : (r.start == r.end) ≡ true = ground arith in rw t

  pop-some :
      (r : Recycle A) (x : A)
      → r.start ≢ r.end
      → pop r x
        ≡ (ok, get_or r.holder r.start x, record r { start = advance r.start (length r.holder) })
  unfolding pop
  pop-some r x ne = let t : (r.start == r.end) ≡ false = ground arith in rw t

  -- `Pop` on a valid ring is a pop on the queue that it stands for.
  pub pop_refines :
      {r : Recycle A} (d x : A)
      → IsValid r
      → let (s, y, r') = pop r x in (s, y, contents d r') ≡ fifo_pop (contents d r) x
  unfolding fifo_pop
  pop_refines {r} d x v = elim (ℕ_discrete r.start r.end) [
    | yes e ↦ let z : count r ≡ 0 = ground arith in rw (pop-empty r x e, z)
    | no ne ↦
        let r' : Recycle A = record r { start = advance r.start (length r.holder) } in
        let z : count r ≡ suc (count r') =
          ground (arith, advance_cases r.start (length r.holder) v.start_lt v.size_lt) in
        rw (pop-some r x ne, z)
          (ap (λ y. (ok, y, contents d r')) (get_or_default r.holder r.start x d v.start_lt))
  ]

-- A client's calls, in order.
pub data Call {ℓ} (A : Type ℓ) : Type ℓ where
  pushes : A → Call A
  pops : Call A

module _ {ℓ} {A : Type ℓ} (default : A) where
  -- What each call returns: the status, and for `Pop` what it wrote to `*data`.
  unfoldable pub run : Recycle A → List (Call A) → List (Error × A)
  run r [] = []
  run r (pushes x ∷ calls) = let (s, r') = push r x in (s, x) ∷ run r' calls
  run r (pops ∷ calls) = let (s, y, r') = pop r default in (s, y) ∷ run r' calls

  unfoldable pub fifo_run : ℕ → List A → List (Call A) → List (Error × A)
  fifo_run cap q [] = []
  fifo_run cap q (pushes x ∷ calls) =
      let (s, q') = fifo_push cap q x in (s, x) ∷ fifo_run cap q' calls
  fifo_run cap q (pops ∷ calls) =
      let (s, y, q') = fifo_pop q default in (s, y) ∷ fifo_run cap q' calls

  -- No sequence of `Push` and `Pop` calls tells a valid ring of `n` places from the first-in
  -- first-out queue of its contents that takes `n - 1` elements: every status and every element
  -- is the same.
  pub run_refines :
      (calls : List (Call A)) {r : Recycle A}
      → IsValid r
      → run r calls ≡ fifo_run (length r.holder - 1) (contents default r) calls
  unfolding run fifo_run
  run_refines [] v = refl
  run_refines (pushes x ∷ calls) {r} v =
      rw (run_refines calls (push-IsValid x v), ← push_refines default x v, length-push)
  run_refines (pops ∷ calls) {r} v =
      rw (run_refines calls (pop-IsValid default v), ← pop_refines default default v, length-pop)
