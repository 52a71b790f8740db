-- ===== src/Task/Api.antt =====
-- The public functions of src/task/task.c over the heap and the alarms of the SDK. The SDK is an
-- interface: its state, its clock and its two alarm functions.
use picore.Base.{
  ℕ, zero, suc, Bool, true, false, Option, none, some, List, [], ◌∷◌, if◌then◌else◌, leb,
}
use picore.Task.{
  Heap, head, put_queue, remove_loop, wait_queue_pop, insert_loop, pending_queue_pop,
  pending_queue_insert,
}

-- What the queue uses of `pico/time.h`. An alarm's identifier is `none` where it is negative.
-- `add_alarm_at` has the deadline, the queue as the data of the callback `ptask_alarm`, and
-- `fire_if_past`. It returns before the callback runs: that the SDK may call `ptask_alarm` during the
-- call, where the deadline has passed, is not modelled.
pub record Sdk : Type 1 where
  pub State : Type 0
  pub now : State → ℕ
  pub cancel_alarm : ℕ → State → State
  pub add_alarm_at : ℕ → ℕ → Bool → State → Option ℕ × State

-- `pr_task_wait_queue_remove`: `none` is the failed assertion that the list is not empty, or a loop
-- out of fuel.
unfoldable pub wait_queue_remove : ℕ → Heap → ℕ → ℕ → Option Heap
wait_queue_remove fuel h q t = elim (h.queues q).waiting [
  | none ↦ none
  | some first ↦ remove_loop fuel h q t head
]

-- The critical section of `pr_task_exec`, with its `reschedule`.
unfoldable pub exec_section : ℕ → Heap → ℕ → ℕ → Option (Heap × Bool)
exec_section fuel h q t =
    if (h.tasks t).pending
    then some (h, false)
    else (if (h.tasks t).waiting
        then (elim (wait_queue_remove fuel h q t) [
          | none ↦ none
          | some h' ↦ some (pending_queue_insert h' q t, true)
        ])
        else some (pending_queue_insert h q t, false))

-- The critical section of `pr_task_exec_in_us` and `pr_task_exec_in_ms`, at the deadline `at`.
unfoldable pub exec_in_section : ℕ → Heap → ℕ → ℕ → ℕ → Option Heap
exec_in_section fuel h q t at =
    if (h.tasks t).waiting
    then (elim (wait_queue_remove fuel h q t) [
      | none ↦ none
      | some h' ↦ insert_loop fuel h' q t at head
    ])
    else insert_loop fuel h q t at head

-- The loop of `queue_waiting_process`, on fuel; `none` means that the fuel ran out.
unfoldable pub due_loop : ℕ → Heap → ℕ → ℕ → Option Heap
due_loop zero h q now = none
due_loop (suc fuel) h q now = elim (h.queues q).waiting [
  | none ↦ some h
  | some t ↦ elim (leb (h.tasks t).exec_at now) [
    | true ↦ due_loop fuel (pending_queue_insert (wait_queue_pop h q).1 q t) q now
    | false ↦ some h
  ]
]

module _ (sdk : Sdk) where
  open sdk use {State, now, cancel_alarm, add_alarm_at}

  pub record System : Type 0 where
    pub heap : Heap
    pub timer : State

  -- `if (queue->alarm >= 0) { cancel_alarm(queue->alarm); queue->alarm = -1; }`
  unfoldable pub drop_alarm : System → ℕ → System
  drop_alarm s q = elim (s.heap.queues q).alarm [
    | none ↦ s
    | some id ↦ record {
      heap = put_queue s.heap q (record (s.heap.queues q) { alarm = none });
      timer = cancel_alarm id s.timer;
    }
  ]

  -- The rest of `queue_reschedule`: an alarm for the first waiting task, if there is one.
  unfoldable pub add_alarm : System → ℕ → System
  add_alarm s q = elim (s.heap.queues q).waiting [
    | none ↦ s
    | some t ↦
        let (id, timer) = add_alarm_at (s.heap.tasks t).exec_at q true s.timer in
        record {
          heap = put_queue s.heap q (record (s.heap.queues q) { alarm = id });
          timer = timer;
        }
  ]

  -- `queue_reschedule`
  unfoldable pub reschedule : System → ℕ → System
  reschedule s q = add_alarm (drop_alarm s q) q

  -- `pr_task_exec` behind its tests: the result is whether it returns 0 and the state after.
  unfoldable pub exec_on : ℕ → System → ℕ → ℕ → Option (Bool × System)
  exec_on fuel s q t = elim (exec_section fuel s.heap q t) [
    | none ↦ none
    | some (h, again) ↦
        let s' = record s { heap = h } in some (true, if again then reschedule s' q else s')
  ]

  -- `pr_task_exec`; `false` is the return of -1.
  unfoldable pub exec : ℕ → System → Option ℕ → Option (Bool × System)
  exec fuel s none = some (false, s)
  exec fuel s (some t) = elim (s.heap.tasks t).handler [
    | none ↦ some (false, s)
    | some handler ↦ elim (s.heap.tasks t).queue [
      | none ↦ some (false, s)
      | some q ↦ exec_on fuel s q t
    ]
  ]

  -- `pr_task_exec_in_us` and `pr_task_exec_in_ms`; `at` is the deadline that the SDK computes. A
  -- task without a queue is a fault.
  unfoldable pub exec_in : ℕ → System → ℕ → ℕ → Option System
  exec_in fuel s t at = elim (s.heap.tasks t).queue [
    | none ↦ none
    | some q ↦
        if (s.heap.tasks t).pending then some s else (elim (exec_in_section fuel s.heap q t at) [
          | none ↦ none
          | some h ↦ some (reschedule (record s { heap = h }) q)
        ])
  ]

  -- `queue_waiting_process`
  unfoldable pub waiting_process : ℕ → System → ℕ → Option System
  waiting_process fuel s q = elim (due_loop fuel s.heap q (now s.timer)) [
    | none ↦ none
    | some h ↦ some (reschedule (record s { heap = h }) q)
  ]

  -- `ptask_alarm`
  unfoldable pub alarm : ℕ → System → ℕ → Option System
  alarm fuel s q =
      waiting_process fuel
        (record s { heap = put_queue s.heap q (record (s.heap.queues q) { alarm = none }) }) q

  -- `pr_task_queue_init`; the source leaves `alarm` as it is.
  unfoldable pub queue_init : System → ℕ → System
  queue_init s q = record s {
    heap =
        put_queue s.heap q (record (s.heap.queues q) { first = none; last = none; waiting = none });
  }

  -- `pr_task_queue_is_empty`
  unfoldable pub queue_is_empty : System → ℕ → Bool
  queue_is_empty s q = elim (s.heap.queues q).first [ none ↦ true | some t ↦ false ]

  -- `pr_task_queue_run_until_empty` for at most `fuel` tasks: the tasks served, in order, whether
  -- the list was found empty, and the state after. `handle` runs a task's handler.
  unfoldable pub run_until_empty : (ℕ → System → System) → ℕ → System → ℕ → List ℕ × Bool × System
  run_until_empty handle zero s q = ([], false, s)
  run_until_empty handle (suc fuel) s q =
      let (first, h) = pending_queue_pop s.heap q in
      elim first [
        | none ↦ ([], true, record s { heap = h })
        | some t ↦
            let (served, done, s') =
              run_until_empty handle fuel (handle t (record s { heap = h })) q in
            (t ∷ served, done, s')
      ]
