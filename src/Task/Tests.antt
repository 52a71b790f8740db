-- ===== src/Task/Tests.antt =====
-- The scheduler's theorems at a concrete queue, and runs of src/task/task.c's functions.
use picore.Base.{
  ◌⊎◌, ℕ, ◌≡◌, refl, true, false, ◌==◌, none, some, List, [], ◌∷◌, arith, if◌then◌else◌, append-nil,
}
use picore.Task.{Task, pending_queue_pop}
use picore.Task.Links.{due_at}
use picore.Task.Lists.{DueFrom}
use picore.Task.Inv.{IsQueue}
use picore.Task.Run.{Queues, run-serves}
use picore.Task.Calls.{exec-IsQueue, waiting_process-IsQueue}
use picore.Task.Api.{Sdk, System, exec, waiting_process, run_until_empty}

-- A clock that stands at its state, and alarms that are numbered 7.
abbrev sdk : Sdk
sdk = record {
  State = ℕ;
  now = λ s. s;
  cancel_alarm = λ id s. s;
  add_alarm_at = λ at q fire_if_past s. (some 7, s);
}

abbrev idle : Task
idle = record {
  next = none;
  pending = false;
  waiting = false;
  queue = none;
  handler = some 9;
  exec_at = 0;
}

-- Tasks 1 and 2 are pending, and 3 and 4 wait for the times 50 and 60.
abbrev tasks : ℕ → Task
tasks x =
    if x == 1
    then record idle { next = some 2; pending = true; queue = some 0 }
    else (if x == 2
        then record idle { pending = true; queue = some 0 }
        else (if x == 3
            then record idle { next = some 4; waiting = true; queue = some 0; exec_at = 50 }
            else (if x == 4
                then record idle { waiting = true; queue = some 0; exec_at = 60 }
                else idle)))

abbrev start : System sdk
start = record {
  heap = record {
    tasks = tasks;
    queues = λ q. record { first = some 1; last = some 2; waiting = some 3; alarm = none };
  };
  timer = 55;
}

abbrev ps : List ℕ
ps = 1 ∷ 2 ∷ []

abbrev ws : List ℕ
ws = 3 ∷ 4 ∷ []

start-IsQueue : IsQueue start.heap 0 ps ws
start-IsQueue = record {
  pend = (refl, (refl, refl));
  wait = (refl, (refl, refl));
  last = refl;
  pend_distinct = (refl, (refl, tt));
  wait_distinct = (refl, (refl, tt));
  apart = λ x i. ground arith;
  flags = λ x m. ground arith;
  owned = λ x i. ground arith;
  sorted = ((omega arith, tt), (tt, tt));
}

exec-IsQueue_example :
    (s' : System sdk) × (exec sdk 3 start (some 3) ≡ some (true, s'))
    × IsQueue s'.heap 0 (1 ∷ 2 ∷ 3 ∷ []) (4 ∷ [])
    × ((true ≡ true) ⊎ (s'.timer ≡ 55))
exec-IsQueue_example = exec-IsQueue sdk 3 start 0 ps ws start-IsQueue (omega arith) 3 9 refl refl

waiting_process-IsQueue_example :
    (s' : System sdk) × (waiting_process sdk 3 start 0 ≡ some s')
    × IsQueue s'.heap 0 (1 ∷ 2 ∷ 3 ∷ []) (4 ∷ [])
    × DueFrom (due_at start.heap) 56 (4 ∷ [])
waiting_process-IsQueue_example =
    waiting_process-IsQueue sdk 3 start 0 ps ws start-IsQueue (omega arith)

quiet : (t : ℕ) → Queues sdk (λ t s. s) 0 t
quiet t = record { queues = λ s ps ws v. ([], ws, rw append-nil v) }

run-serves_example : (run_until_empty sdk (λ t s. s) 1 start 0).0 ≡ 1 ∷ []
run-serves_example = run-serves sdk (λ t s. s) 0 quiet (1 ∷ []) (2 ∷ []) ws start start-IsQueue

serves_in_order : (run_until_empty sdk (λ t s. s) 5 start 0).0 ≡ 1 ∷ 2 ∷ []
unfolding run_until_empty pending_queue_pop
serves_in_order = refl
