-- ===== src/Task/Run.antt =====
-- `pr_task_queue_run_until_empty`: in which order tasks are served.
use picore.Base.{
  ℕ, suc, ◌≡◌, refl, ap, sym, subst, ◌∙◌, true, List, [], ◌∷◌, ◌++◌, length, append_assoc,
}
use picore.Task.Inv.{IsQueue}
use picore.Task.Pop.{popped, pop-IsQueue, pop_empty}
use picore.Task.Api.{Sdk, System, run_until_empty}

module _ (sdk : Sdk) (handle : ℕ → System sdk → System sdk) (q : ℕ) where
  -- A handler may make tasks pending and wait, and may not take a pending task off the list.
  pub record Queues (t : ℕ) : Type 0 where
    pub queues :
        (s : System sdk) (ps ws : List ℕ)
        → IsQueue s.heap q ps ws
        → (new : List ℕ) × (ws' : List ℕ) × IsQueue (handle t s).heap q (ps ++ new) ws'

  after_pop : System sdk → ℕ → System sdk
  after_pop s t = handle t (record s { heap = popped s.heap q })

  run_next :
      (fuel : ℕ) (s : System sdk) (t : ℕ) (ps ws : List ℕ)
      → IsQueue s.heap q (t ∷ ps) ws
      → let (served, done, s') = run_until_empty sdk handle fuel (after_pop s t) q in
        run_until_empty sdk handle (suc fuel) s q ≡ (t ∷ served, done, s')
  unfolding run_until_empty after_pop
  run_next fuel s t ps ws v = rw ((pop-IsQueue s.heap q t ps ws v).0, run_until_empty)

  -- On a well-formed queue, whose handlers keep it so and take no pending task off: whatever the
  -- handlers make pending, the first tasks that are served are those pending at the start, each
  -- once and in order.
  pub run-serves :
      ((t : ℕ) → Queues t)
      → (ps extra ws : List ℕ) (s : System sdk) → IsQueue s.heap q (ps ++ extra) ws
      → (run_until_empty sdk handle (length ps) s q).0 ≡ ps
  unfolding run_until_empty after_pop
  run-serves keeps [] extra ws s v = refl
  run-serves keeps (t ∷ ps) extra ws s v =
      let p = (pop-IsQueue s.heap q t (ps ++ extra) ws v).1 in
      let (new, ws', r) =
        (keeps t).queues (record s { heap = popped s.heap q }) (ps ++ extra) ws p in
      ap (λ k. k.0) (run_next (length ps) s t (ps ++ extra) ws v)
      ∙ ap (λ l. t ∷ l)
          (run-serves keeps ps (extra ++ new) ws' (after_pop s t)
            (subst (λ l. IsQueue (after_pop s t).heap q l ws') (append_assoc ps extra new) r))

  -- On a well-formed queue, whose handlers leave the heap alone, the loop ends: it serves the pending
  -- tasks in order, finds the list empty, and leaves the waiting tasks as they are.
  run_drains :
      ((t : ℕ) (s : System sdk) → (handle t s).heap ≡ s.heap)
      → (ps ws : List ℕ) (s : System sdk) → IsQueue s.heap q ps ws
      → let (served, done, s') = run_until_empty sdk handle (suc (length ps)) s q in
        (served ≡ ps) × (done ≡ true) × IsQueue s'.heap q [] ws
  unfolding run_until_empty after_pop
  run_drains keeps [] ws s v =
      let e = pop_empty s.heap q ws v in
      rw (ap (λ r. r.0) e, ap (λ r. r.1) e, run_until_empty) (refl, refl, v)
  run_drains keeps (t ∷ ps) ws s v =
      let p = (pop-IsQueue s.heap q t ps ws v).1 in
      let r =
        run_drains keeps ps ws (after_pop s t) (
          subst (λ h. IsQueue h q ps ws) (sym (keeps t (record s { heap = popped s.heap q }))) p) in
      rw (run_next (suc (length ps)) s t ps ws v) (ap (λ l. t ∷ l) r.0, r.1, r.2)
