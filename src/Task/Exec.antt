-- ===== src/Task/Exec.antt =====
-- `pr_task_exec`, `pr_task_exec_in_us` and `pr_task_exec_in_ms`: what their critical sections do to
-- the two lists of the queue.
use picore.Base.{
  ℕ, ◌<◌, ◌≡◌, ap₂, subst, ◌∙◌, true, false, some, List, [], ◌∷◌, ◌++◌, arith, if◌then◌else◌,
  Bool-cases, inl, inr, length,
}
use picore.Task.{Heap, head, pending_queue_insert, insert_loop}
use picore.Task.Chain.{has, end_link}
use picore.Task.Links.{due_at, insert_loop-splice, remove_loop-unlink, until}
use picore.Task.Lists.{before-agree}
use picore.Task.Inv.{IsQueue, pending_insert-IsQueue}
use picore.Task.Wait.{
  removed, inserted, without, scheduled, remove-IsQueue, insert-IsQueue, unlink_fields,
  split-Distinct, length-without, due_at-inserted,
}
use picore.Task.Api.{wait_queue_remove, exec_section, exec_in_section}

-- The lists after a task is made pending: a waiting task stops waiting, a pending one stays.
abbrev pub queued : ℕ → List ℕ → List ℕ
queued t ps = if has t ps then ps else ps ++ t ∷ []

abbrev pub dropped : ℕ → List ℕ → List ℕ
dropped t ws = if has t ws then without t ws else ws

wait_queue_remove-removed :
    (fuel : ℕ) (h : Heap) (q t : ℕ) (ps ws : List ℕ)
    → IsQueue h q ps ws
    → length ws < fuel
    → has t ws ≡ true
    → wait_queue_remove fuel h q t ≡ some (removed h q t ws)
unfolding wait_queue_remove
wait_queue_remove-removed fuel h q t ps [] v lt i = ground arith
wait_queue_remove-removed fuel h q t ps (x ∷ ws) v lt i =
    rw (v.wait.0, wait_queue_remove) (remove_loop-unlink fuel h q t head (x ∷ ws) v.wait lt i)

module _ (fuel : ℕ) (h : Heap) (q t : ℕ) (ps ws : List ℕ) (v : IsQueue h q ps ws)
    (mine : (h.tasks t).queue ≡ some q) (enough : length ws < fuel) where
  -- `pr_task_exec` makes the task the last pending one unless it is pending already, takes it off
  -- the waiting list if it stands there, and asks for a reschedule exactly then; all other tasks
  -- keep their places.
  pub exec_section-IsQueue :
      (h' : Heap) × (exec_section fuel h q t ≡ some (h', has t ws))
      × IsQueue h' q (queued t ps) (dropped t ws)
  unfolding exec_section
  exec_section-IsQueue = elim (Bool-cases (has t ps)) [
    | inl p ↦
        let w : has t ws ≡ false = v.apart t p in
        let f : (h.tasks t).pending ≡ true = (v.flags t mine).0 ∙ p in (h, rw (f, w), rw (p, w) v)
    | inr p ↦ elim (Bool-cases (has t ws)) [
      | inl w ↦
          let f : (h.tasks t).pending ≡ false = (v.flags t mine).0 ∙ p in
          let g : (h.tasks t).waiting ≡ true = (v.flags t mine).1 ∙ w in
          let h1 = removed h q t ws in
          let r = remove-IsQueue h q ps ws v t w in
          let out = (split-Distinct h q ps ws v t w).1 in
          (
            pending_queue_insert h1 q t,
            rw (f, g, wait_queue_remove-removed fuel h q t ps ws v enough w, w),
            rw (p, w)
                (pending_insert-IsQueue h1 q ps (without t ws) r t p out
                  ((unlink_fields h q t (end_link head (until t ws)) t).2 ∙ mine)),
          )
      | inr w ↦
          let f : (h.tasks t).pending ≡ false = (v.flags t mine).0 ∙ p in
          let g : (h.tasks t).waiting ≡ false = (v.flags t mine).1 ∙ w in
          (
            pending_queue_insert h q t,
            rw (f, g, w),
            rw (p, w) (pending_insert-IsQueue h q ps ws v t p w mine),
          )
    ]
  ]

  insert_loop-inserted :
      (h1 : Heap) (xs : List ℕ) (at : ℕ)
      → IsQueue h1 q ps xs
      → length xs < fuel
      → insert_loop fuel h1 q t at head ≡ some (inserted h1 q t at xs)
  insert_loop-inserted h1 xs at r lt = insert_loop-splice fuel h1 q t at head xs r.wait lt

  -- The removed task alone changes its due time.
  dropped_due :
      has t ws ≡ true
      → (x : ℕ) → has x (without t ws) ≡ true
      → due_at (removed h q t ws) x ≡ due_at h x
  dropped_due w x i =
      ground
        (arith, unlink_fields h q t (end_link head (until t ws)) x, split-Distinct h q ps ws v t w)

  scheduled-removed :
      (at : ℕ)
      → has t ws ≡ true
      → scheduled (due_at (removed h q t ws)) t at (without t ws)
        ≡ scheduled (due_at h) t at (without t ws)
  scheduled-removed at w =
      let places =
        before-agree (due_at h) (due_at (removed h q t ws)) at (without t ws) (dropped_due w) in
      ap₂ (λ a b. a ++ t ∷ b) places.0 places.1

  -- `pr_task_exec_in_us` and `pr_task_exec_in_ms` on a task that is not pending: the task waits at
  -- its new deadline, behind the tasks due before it, and its former deadline is forgotten; the
  -- pending list stays, and the waiting list stays sorted.
  pub exec_in_section-IsQueue :
      (at : ℕ)
      → has t ps ≡ false
      → (h' : Heap) × (exec_in_section fuel h q t at ≡ some h')
        × IsQueue h' q ps (scheduled (due_at h) t at (dropped t ws))
        × (due_at h' t ≡ at)
  unfolding exec_in_section
  exec_in_section-IsQueue at p = elim (Bool-cases (has t ws)) [
    | inl w ↦
        let g : (h.tasks t).waiting ≡ true = (v.flags t mine).1 ∙ w in
        let h1 = removed h q t ws in
        let r = remove-IsQueue h q ps ws v t w in
        let out = (split-Distinct h q ps ws v t w).1 in
        let owner = (unlink_fields h q t (end_link head (until t ws)) t).2 ∙ mine in
        (
          inserted h1 q t at (without t ws),
          rw (g, wait_queue_remove-removed fuel h q t ps ws v enough w)
              (insert_loop-inserted h1 (without t ws) at r (omega (arith, length-without t ws w))),
          rw w (
              subst (λ l. IsQueue (inserted h1 q t at (without t ws)) q ps l)
                (scheduled-removed at w)
                (insert-IsQueue h1 q ps (without t ws) r t at p out owner)),
          due_at-inserted h1 q t at (without t ws),
        )
    | inr w ↦
        let g : (h.tasks t).waiting ≡ false = (v.flags t mine).1 ∙ w in
        (
          inserted h q t at ws,
          rw g (insert_loop-inserted h ws at v enough),
          rw w (insert-IsQueue h q ps ws v t at p w mine),
          due_at-inserted h q t at ws,
        )
  ]
