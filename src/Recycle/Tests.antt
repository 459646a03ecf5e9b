-- ===== src/Recycle/Tests.antt =====
-- The ring of recycle.h on small examples.
use redisproxy.Base.{ℕ, ◌≡◌, refl, List, [], ◌∷◌, some, arith}
use redisproxy.Error.{ok, full, empty}
use redisproxy.Recycle.{Recycle, create, push, pop, from_begin}
use redisproxy.Recycle.Valid.{IsValid}
use redisproxy.Recycle.Fifo.{Call, pushes, pops, contents, run, fifo_run, run_refines}
use redisproxy.Recycle.Walk.{walk, walk-contents}

-- 8, then 9, round the end of the vector
abbrev wrapped : Recycle ℕ
wrapped = record { holder = 9 ∷ 7 ∷ 8 ∷ []; start = 2; end = 1 }

abbrev script : List (Call ℕ)
script = pushes 5 ∷ pops ∷ pushes 6 ∷ pops ∷ pops ∷ pops ∷ []

wrapped-IsValid : IsValid wrapped
wrapped-IsValid = omega arith

contents-wrapped : contents 0 wrapped ≡ 8 ∷ 9 ∷ []
contents-wrapped = refl

run-wrapped :
    run 0 wrapped script ≡ (full, 5) ∷ (ok, 8) ∷ (ok, 6) ∷ (ok, 9) ∷ (ok, 6) ∷ (empty, 0) ∷ []
unfolding run push pop
run-wrapped = refl

abbrev small : Recycle ℕ
small = create 0 2

run-create : run 0 small (pushes 4 ∷ pushes 5 ∷ pops ∷ []) ≡ (ok, 4) ∷ (full, 5) ∷ (ok, 4) ∷ []
unfolding create run push pop
run-create = refl

run_refines_example : run 0 wrapped script ≡ fifo_run 0 2 (8 ∷ 9 ∷ []) script
run_refines_example = run_refines 0 script wrapped-IsValid

walk-contents_example : walk 3 wrapped (from_begin 1 wrapped) ≡ some 8 ∷ some 9 ∷ []
walk-contents_example = walk-contents 0 1 wrapped-IsValid (omega arith)
