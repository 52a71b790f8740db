-- ===== src/Task/Calls.antt =====
-- The public calls of src/task/task.c, critical section and alarm together.
use picore.Base.{◌⊎◌, ℕ, suc, ◌<◌, ◌≡◌, refl, true, some, List, ◌++◌, length, Bool-cases, inl, inr}
use picore.Task.Chain.{has}
use picore.Task.Links.{due_at}
use picore.Task.Lists.{DueFrom}
use picore.Task.Inv.{IsQueue}
use picore.Task.Exec.{queued, dropped, exec_section-IsQueue}
use picore.Task.Timer.{expired, later, due_loop-IsQueue, reschedule-armed}
use picore.Task.Api.{Sdk, System, reschedule, exec_on, exec, waiting_process}

module _ (sdk : Sdk) (fuel : ℕ) (s : System sdk) (q : ℕ) (ps ws : List ℕ)
    (v : IsQueue s.heap q ps ws) (enough : length ws < fuel) where
  open sdk use {State, now}

  -- On a well-formed queue, with fuel for its waiting list, `pr_task_exec` of a task of the queue
  -- with a handler returns 0: the task is pending, behind the others unless it was pending before,
  -- and no longer waits; the timers are touched only where it waited.
  pub exec-IsQueue :
      (t f : ℕ)
      → (s.heap.tasks t).handler ≡ some f
      → (s.heap.tasks t).queue ≡ some q
      → (s' : System sdk) × (exec sdk fuel s (some t) ≡ some (true, s'))
        × IsQueue s'.heap q (queued t ps) (dropped t ws)
        × ((has t ws ≡ true) ⊎ (s'.timer ≡ s.timer))
  unfolding exec exec_on
  exec-IsQueue t f hf mine =
      let (h', e, r) = exec_section-IsQueue fuel s.heap q t ps ws v mine enough in
      elim (Bool-cases (has t ws)) [
        | inl w ↦ (
          reschedule sdk (record s { heap = h' }) q,
          rw (hf, mine, exec, e, exec_on, w),
          (reschedule-armed sdk (record s { heap = h' }) q (queued t ps) (dropped t ws) r).0,
          inl w,
        )
        | inr w ↦ (record s { heap = h' }, rw (hf, mine, exec, e, exec_on, w), r, inr refl)
      ]

  -- On a well-formed queue, with fuel for its waiting list, `queue_waiting_process` returns: every
  -- task that is due becomes pending, in the order of the deadlines and behind the pending ones; the
  -- others wait on, and all of them are due later than now.
  pub waiting_process-IsQueue :
      let n = now s.timer in
      let ws' = later (due_at s.heap) n ws in
      (s' : System sdk) × (waiting_process sdk fuel s q ≡ some s')
      × IsQueue s'.heap q (ps ++ expired (due_at s.heap) n ws) ws'
      × DueFrom (due_at s.heap) (suc n) ws'
  unfolding waiting_process
  waiting_process-IsQueue =
      let n = now s.timer in
      let (h', e, r, d) = due_loop-IsQueue q n fuel s.heap ps ws v enough in
      (
        reschedule sdk (record s { heap = h' }) q,
        rw (e, waiting_process),
        (reschedule-armed sdk (record s { heap = h' }) q (ps ++ expired (due_at s.heap) n ws)
            (later (due_at s.heap) n ws) r).0,
        d,
      )
