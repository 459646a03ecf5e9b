-- ===== src/Mem/Counting.antt =====
-- `IncRef` and `DescRef` of mem_alloc.cpp: any calls of them on a block, one after another.
use redisproxy.Base.{
  ℕ, zero, suc, ◌+◌, ◌^◌, ◌<◌, ◌≡◌, ◌∙◌, refl, ap, true, none, some, Option, List, [], ◌∷◌, length,
  arith, ◌==◌, if◌then◌else◌,
}
use redisproxy.Mem.{M, Ptr, Block, Heap, write, ◌>>◌, ◌>>=◌, incr_ref, desc_ref, pure}
use redisproxy.Mem.Laws.{IsBlock, bind_at, incr_ref_at, desc_ref_at}
use mathlib.Core.Path.{fun_ext}

pub data Call : Type 0 where
  takes gives : Call

-- The calls on the block at `p`, in order.
pub run_refs : List Call → Ptr → M (Unit {0})
run_refs [] p = pure tt
run_refs (takes ∷ calls) p = incr_ref p >> run_refs calls p
run_refs (gives ∷ calls) p = desc_ref p >> run_refs calls p

-- The number of references after the calls; `none` is a call when there are none left.
pub count_after : ℕ → List Call → Option ℕ
count_after n [] = some n
count_after zero (call ∷ calls) = none
count_after (suc n) (takes ∷ calls) = count_after (suc (suc n)) calls
count_after (suc n) (gives ∷ calls) = count_after n calls

-- The heap in which the block at `p` has `n` references: without any it is freed.
abbrev pub with_count : Heap → Ptr → Block → ℕ → Heap
with_count h p b n = write h p (if n == 0 then none else some (record b { count = n }))

abbrev pub counted : Heap → Ptr → Block → Option ℕ → Option (Unit {0} × Heap)
counted h p b none = none
counted h p b (some n) = some (tt, with_count h p b n)

-- A call after the block was freed is a fault.
run_refs-freed :
    (call : Call) (calls : List Call) (h : Heap) (p : Ptr) (b : Block)
    → run_refs (call ∷ calls) p (with_count h p b 0) ≡ none
unfolding run_refs incr_ref desc_ref
run_refs-freed takes calls h p b = let e : (p == p) ≡ true = ground arith in rw (e, ◌>>=◌) refl
run_refs-freed gives calls h p b = let e : (p == p) ≡ true = ground arith in rw (e, ◌>>=◌) refl

module _ (h : Heap) (p : Ptr) (b : Block) where
  there : (n : ℕ) → with_count h p b (suc n) p ≡ some (record b { count = suc n })
  there n = ground arith

  takes_at :
      (n : ℕ)
      → suc n + 1 < 2 ^ 32
      → incr_ref p (with_count h p b (suc n)) ≡ some (tt, with_count h p b (suc (suc n)))
  takes_at n lt =
      incr_ref_at (with_count h p b (suc n)) p _ (there n)
      ∙ ap (λ g. some (tt, g)) (fun_ext λ q. ground arith)

  gives_at :
      (n : ℕ)
      → suc n < 2 ^ 32
      → desc_ref p (with_count h p b (suc n)) ≡ some (tt, with_count h p b n)
  gives_at n lt =
      desc_ref_at (with_count h p b (suc n)) p _ (there n)
      ∙ ap (λ g. some (tt, g)) (fun_ext λ q. ground arith)

  run_refs-after :
      (calls : List Call) (n : ℕ)
      → n + length calls < 2 ^ 32
      → run_refs calls p (with_count h p b n) ≡ counted h p b (count_after n calls)
  unfolding run_refs count_after
  run_refs-after [] n lt = refl
  run_refs-after (call ∷ calls) zero lt = run_refs-freed call calls h p b
  run_refs-after (takes ∷ calls) (suc n) lt =
      bind_at (incr_ref p) (λ _. run_refs calls p) _ (takes_at n (omega arith))
      ∙ run_refs-after calls (suc (suc n)) (omega arith)
  run_refs-after (gives ∷ calls) (suc n) lt =
      bind_at (desc_ref p) (λ _. run_refs calls p) _ (gives_at n (omega arith))
      ∙ run_refs-after calls n (omega arith)

  -- Any calls of `IncRef` and `DescRef` on a block in use, fewer than make its count wrap around, do to it
  -- what they do to a counter: the block is there with as many references as have been taken and not
  -- given up, it is freed by the `DescRef` that gives up the last of them and by no other, a call behind
  -- that one is a fault, and no other block changes.
  pub run_refs-count_after :
      (calls : List Call)
      → h p ≡ some b
      → IsBlock b
      → b.count + length calls < 2 ^ 32
      → run_refs calls p h ≡ counted h p b (count_after b.count calls)
  run_refs-count_after calls at v lt = ap (run_refs calls p) same ∙ run_refs-after calls b.count lt
    where
      same : h ≡ with_count h p b b.count
      same = fun_ext λ q. ground (arith, at, v)
