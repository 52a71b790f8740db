-- ===== src/Task/Timer.antt =====
-- `queue_waiting_process` and `queue_reschedule`: when waiting tasks become pending, and when the
-- alarm is set.
use picore.Base.{
  ℕ, zero, suc, ◌≤◌, ◌<◌, ◌≡◌, refl, ap, ap₂, subst, ◌∙◌, true, false, ◌==◌, Option, none, some,
  List, [], ◌∷◌, ◌++◌, arith, if◌then◌else◌, Bool-cases, Option-cases, inl, inr, length,
  append_assoc, append-nil, leb,
}
use mathlib.Core.Path.{subst₂}
use picore.Task.{Heap, head, put_queue, wait_link, pending_queue_insert, wait_queue_pop}
use picore.Task.Chain.{has, frame}
use picore.Task.Links.{due_at}
use picore.Task.Lists.{DueFrom, Sorted, DueFrom-weaken}
use picore.Task.Inv.{IsQueue, pend_link, pending_insert-IsQueue, insert_fields}
use picore.Task.Pop.{wait_pop-IsQueue}
use picore.Task.Api.{Sdk, System, due_loop, drop_alarm, add_alarm, reschedule}

-- The tasks of a sorted list that are due at `now`, and the others.
abbrev pub expired : (ℕ → ℕ) → ℕ → List ℕ → List ℕ
expired due now [] = []
expired due now (x ∷ xs) = if leb (due x) now then x ∷ expired due now xs else []

abbrev pub later : (ℕ → ℕ) → ℕ → List ℕ → List ℕ
later due now [] = []
later due now (x ∷ xs) = if leb (due x) now then later due now xs else x ∷ xs

later-DueFrom :
    (due : ℕ → ℕ) (now : ℕ) (ws : List ℕ) → Sorted due ws → DueFrom due (suc now) (later due now ws)
later-DueFrom due now [] s = tt
later-DueFrom due now (x ∷ ws) s = elim (Bool-cases (leb (due x) now)) [
  | inl e ↦ rw e (later-DueFrom due now ws s.1)
  | inr e ↦
      let lt : suc now ≤ due x = ground arith in
      rw e (lt, DueFrom-weaken due (suc now) (due x) ws lt s.0)
]

expired-agree :
    (due due' : ℕ → ℕ) (now : ℕ) (xs : List ℕ)
    → ((x : ℕ) → has x xs ≡ true → due' x ≡ due x)
    → (expired due' now xs ≡ expired due now xs) × (later due' now xs ≡ later due now xs)
expired-agree due due' now [] same = (refl, refl)
expired-agree due due' now (x ∷ xs) same =
    ground
      (arith, same x (ground arith), expired-agree due due' now xs (λ y i. same y (ground arith)))

-- The heap after the body of the loop: the first waiting task becomes the last pending one.
abbrev moved : Heap → ℕ → ℕ → Heap
moved h q t = pending_queue_insert (wait_queue_pop h q).1 q t

wait_pop_fields :
    (h : Heap) (q t : ℕ)
    → (h.queues q).waiting ≡ some t
    → (x : ℕ)
    → let a = (wait_queue_pop h q).1.tasks x in
      let b = h.tasks x in (a.queue ≡ b.queue) × (a.exec_at ≡ (if x == t then 0 else b.exec_at))
unfolding wait_queue_pop
wait_pop_fields h q t e x = ground arith

module _ (h : Heap) (q t : ℕ) (ps ws : List ℕ) (v : IsQueue h q ps (t ∷ ws)) where
  moved_out : has t ps ≡ false
  moved_out = ground (arith, v.apart t)

  moved_mine : ((wait_queue_pop h q).1.tasks t).queue ≡ some q
  moved_mine = (wait_pop_fields h q t v.wait.0 t).0 ∙ v.owned t (ground (arith, moved_out))

  moved-IsQueue : IsQueue (moved h q t) q (ps ++ t ∷ []) ws
  moved-IsQueue =
      pending_insert-IsQueue (wait_queue_pop h q).1 q ps ws (wait_pop-IsQueue h q t ps ws v).1 t
        moved_out v.wait_distinct.0 moved_mine

  moved_due : (x : ℕ) → has x ws ≡ true → due_at (moved h q t) x ≡ due_at h x
  moved_due x i =
      (insert_fields (wait_queue_pop h q).1 q ps ws (wait_pop-IsQueue h q t ps ws v).1 t moved_out
        v.wait_distinct.0 moved_mine x).3
      ∙ ground (arith, wait_pop_fields h q t v.wait.0 x, v.wait_distinct.0)

module _ (q now : ℕ) where
  -- `queue_waiting_process` moves the tasks that are due to the end of the pending list, in the
  -- order of their deadlines, and leaves the others waiting: they are due later than `now`.
  pub due_loop-IsQueue :
      (fuel : ℕ) (h : Heap) (ps ws : List ℕ)
      → IsQueue h q ps ws
      → length ws < fuel
      → (h' : Heap) × (due_loop fuel h q now ≡ some h')
        × IsQueue h' q (ps ++ expired (due_at h) now ws) (later (due_at h) now ws)
        × DueFrom (due_at h) (suc now) (later (due_at h) now ws)
  unfolding due_loop
  due_loop-IsQueue zero h ps ws v lt = absurd (omega arith)
  due_loop-IsQueue (suc fuel) h ps [] v lt = (h, rw (v.wait, due_loop), rw append-nil v, tt)
  due_loop-IsQueue (suc fuel) h ps (t ∷ ws) v lt = elim (Bool-cases (leb (due_at h t) now)) [
    | inl e ↦
        let r =
          due_loop-IsQueue fuel (moved h q t) (ps ++ t ∷ []) ws (moved-IsQueue h q t ps ws v)
            (omega arith) in
        let places =
          expired-agree (due_at h) (due_at (moved h q t)) now ws (moved_due h q t ps ws v) in
        (
          r.0,
          rw (v.wait.0, due_loop, e) r.1,
          rw e (
              subst (λ l. IsQueue r.0 q l (later (due_at h) now ws))
                (append_assoc ps (t ∷ []) (expired (due_at h) now ws))
                (subst₂ (λ a b. IsQueue r.0 q ((ps ++ t ∷ []) ++ a) b) places.0 places.1 r.2)),
          rw e (later-DueFrom (due_at h) now ws v.sorted.1),
        )
    | inr e ↦ (
      h,
      rw (v.wait.0, due_loop, e),
      rw (e, append-nil) v,
      later-DueFrom (due_at h) now (t ∷ ws) v.sorted,
    )
  ]

module _ (h : Heap) (q : ℕ) (ps ws : List ℕ) (v : IsQueue h q ps ws) (a : Option ℕ) where
  abbrev with_alarm : Heap
  with_alarm = put_queue h q (record (h.queues q) { alarm = a })

  -- The alarm's identifier is no part of the lists.
  with_alarm-IsQueue : IsQueue with_alarm q ps ws
  with_alarm-IsQueue = record {
    pend =
        frame (pend_link h q) (pend_link with_alarm q) head head ps v.pend (ground arith)
          (λ y i. refl);
    wait =
        frame (wait_link h q) (wait_link with_alarm q) head head ws v.wait (ground arith)
          (λ y i. refl);
    last = v.last ∙ ground arith;
    pend_distinct = v.pend_distinct;
    wait_distinct = v.wait_distinct;
    apart = v.apart;
    flags = v.flags;
    owned = v.owned;
    sorted = v.sorted;
  }

module _ (sdk : Sdk) where
  open sdk use {State, now, cancel_alarm, add_alarm_at}

  -- The alarms after the one of the queue, if any, is cancelled.
  abbrev pub cancelled : Option ℕ → State → State
  cancelled none timer = timer
  cancelled (some id) timer = cancel_alarm id timer

  -- No alarm for an empty list; else one at the deadline of its first task.
  abbrev pub armed : ℕ → (ℕ → ℕ) → List ℕ → State → Option ℕ × State
  armed q due [] timer = (none, timer)
  armed q due (t ∷ ws) timer = add_alarm_at (due t) q true timer

  drop_alarm_lem :
      (s : System sdk) (q : ℕ) (ps ws : List ℕ)
      → IsQueue s.heap q ps ws
      → let s' = drop_alarm sdk s q in
        IsQueue s'.heap q ps ws
        × ((s'.heap.queues q).alarm ≡ none)
        × (s'.timer ≡ cancelled (s.heap.queues q).alarm s.timer)
        × (s'.heap.tasks ≡ s.heap.tasks)
  unfolding drop_alarm
  drop_alarm_lem s q ps ws v = elim (Option-cases (s.heap.queues q).alarm) [
    | inl e ↦ (rw (e, drop_alarm) v, rw (e, drop_alarm) e, rw (e, drop_alarm), rw (e, drop_alarm))
    | inr (id, e) ↦ (
      rw (e, drop_alarm) (with_alarm-IsQueue s.heap q ps ws v none),
      rw (e, drop_alarm) (ground arith),
      rw (e, drop_alarm),
      rw (e, drop_alarm),
    )
  ]

  add_alarm_lem :
      (s : System sdk) (q : ℕ) (ps ws : List ℕ)
      → IsQueue s.heap q ps ws
      → (s.heap.queues q).alarm ≡ none
      → let s' = add_alarm sdk s q in
        IsQueue s'.heap q ps ws
        × (((s'.heap.queues q).alarm, s'.timer) ≡ armed q (due_at s.heap) ws s.timer)
  unfolding add_alarm
  add_alarm_lem s q ps [] v e =
      (rw (v.wait, add_alarm) v, rw (v.wait, add_alarm) (ap (λ a. (a, s.timer)) e))
  add_alarm_lem s q ps (t ∷ ws) v e = (
    rw (v.wait.0, add_alarm)
        (with_alarm-IsQueue s.heap q ps (t ∷ ws) v
          (add_alarm_at (due_at s.heap t) q true s.timer).0),
    rw (v.wait.0, add_alarm) (ground arith),
  )

  drop_alarm-tasks : (s : System sdk) (q : ℕ) → (drop_alarm sdk s q).heap.tasks ≡ s.heap.tasks
  unfolding drop_alarm
  drop_alarm-tasks s q = elim (Option-cases (s.heap.queues q).alarm) [
    | inl e ↦ rw (e, drop_alarm) refl
    | inr (id, e) ↦ rw (e, drop_alarm) refl
  ]

  add_alarm-tasks : (s : System sdk) (q : ℕ) → (add_alarm sdk s q).heap.tasks ≡ s.heap.tasks
  unfolding add_alarm
  add_alarm-tasks s q = elim (Option-cases (s.heap.queues q).waiting) [
    | inl e ↦ rw (e, add_alarm) refl
    | inr (t, e) ↦ rw (e, add_alarm) refl
  ]

  -- The deadlines and the other fields of the tasks stay.
  pub reschedule-tasks : (s : System sdk) (q : ℕ) → (reschedule sdk s q).heap.tasks ≡ s.heap.tasks
  unfolding reschedule
  reschedule-tasks s q = add_alarm-tasks (drop_alarm sdk s q) q ∙ drop_alarm-tasks s q

  -- On a well-formed queue, with an SDK that does not call back during the call, `queue_reschedule`
  -- cancels the queue's alarm and adds one at the earliest deadline, or none where nothing waits.
  pub reschedule-armed :
      (s : System sdk) (q : ℕ) (ps ws : List ℕ)
      → IsQueue s.heap q ps ws
      → let s' = reschedule sdk s q in
        IsQueue s'.heap q ps ws
        × (((s'.heap.queues q).alarm, s'.timer)
            ≡ armed q (due_at s.heap) ws (cancelled (s.heap.queues q).alarm s.timer))
  unfolding reschedule
  reschedule-armed s q ps ws v =
      let d = drop_alarm_lem s q ps ws v in
      let a = add_alarm_lem (drop_alarm sdk s q) q ps ws d.0 d.1 in
      (a.0, a.1 ∙ ap₂ (λ tasks timer. armed q (λ t. (tasks t).exec_at) ws timer) d.3 d.2)
