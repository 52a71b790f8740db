-- ===== src/Queue/Tests.antt =====
-- The queue's theorems at concrete inputs, and tests of src/queue/queue.c's functions.
use mathlib.Core.List.{List, [], ◌∷◌}
use picore.Base.{ℕ, ◌≡◌, refl, arith, Option, none, some}
use picore.Error.{ok, memory}
use picore.Queue.{Queue}
use picore.Queue.Inv.{IsValid}
use picore.Queue.Spec.{Op, put, get, replies}
use picore.Queue.Refine.{run, run_refines}

-- The scheduler here records which tasks it is told to run.
abbrev log : Option ℕ → List (Option ℕ) → List (Option ℕ)
log task w = task ∷ w

-- 8, then 9, round the end of the storage.
abbrev wrapped : Queue
wrapped = record {
  consumer = some 1;
  producer = some 2;
  entry = 9 ∷ 7 ∷ 8 ∷ [];
  size = 3;
  wptr = 1;
  rptr = 2;
  free = 1;
  used = 2;
}

abbrev script : List Op
script = put 1 ∷ put 2 ∷ get ∷ get ∷ get ∷ get ∷ []

wrapped-IsValid : IsValid wrapped
wrapped-IsValid = omega arith

run-wrapped :
    run log wrapped [] script
    ≡ (ok, none) ∷ (memory, none) ∷ (ok, some 8) ∷ (ok, some 9) ∷ (ok, some 1) ∷ (memory, none) ∷ []
unfolding run
run-wrapped = refl

run_refines_example : run log wrapped [] script ≡ replies 3 (8 ∷ 9 ∷ []) script
run_refines_example = run_refines log script [] wrapped-IsValid
