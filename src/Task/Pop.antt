-- ===== src/Task/Pop.antt =====
-- Taking tasks off the two lists of src/task/task.c.
use picore.Base.{
  ℕ, ◌≡◌, refl, sym, ap, ◌∙◌, true, false, ◌==◌, Option, none, some, List, [], ◌∷◌, arith,
  if◌then◌else◌, Bool-cases, ==_iff, inl, inr,
}
use picore.Task.{Heap, head, after, wait_link, unlink, wait_queue_pop, pending_queue_pop, drop_last}
use picore.Task.Chain.{has, Chain, end_link, AgreeBut, frame, Chain-remove}
use picore.Task.Links.{due_at, ne-handle}
use picore.Task.Lists.{Sorted-agree}
use picore.Task.Inv.{IsQueue, pend_link, link_of, end_link-mem}
use picore.Task.Wait.{remove-IsQueue}

-- The heap after the first pending task is popped.
abbrev pub popped : Heap → ℕ → Heap
popped h q = (pending_queue_pop h q).1

module _ (h : Heap) (q t : ℕ) (ps ws : List ℕ) (v : IsQueue h q (t ∷ ps) ws) where
  pop_fields :
      (x : ℕ)
      → let a = (popped h q).tasks x in
        let b = h.tasks x in
        (a.pending ≡ (if x == t then false else b.pending))
        × (a.waiting ≡ b.waiting)
        × (a.queue ≡ b.queue)
        × (a.exec_at ≡ b.exec_at)
        × (a.handler ≡ b.handler)
        × (a.next ≡ (if x == t then none else b.next))
  unfolding pending_queue_pop
  pop_fields x = ground (arith, v.pend.0)

  pop_queue :
      let a = (popped h q).queues q in
      let b = h.queues q in
      (a.first ≡ (h.tasks t).next)
      × (a.last ≡ drop_last b.last t)
      × (a.waiting ≡ b.waiting)
      × ((pending_queue_pop h q).0 ≡ some t)
  unfolding pending_queue_pop
  pop_queue = ground (arith, v.pend.0)

  pop_agree : AgreeBut head (after t) (pend_link h q) (pend_link (popped h q) q)
  pop_agree head n1 n2 = absurd (n1 refl)
  pop_agree (after x) n1 n2 = ground (arith, pop_fields x, ne-handle x t n2)

  pop_pend : Chain (pend_link (popped h q) q) head ps
  pop_pend =
      Chain-remove (pend_link h q) (pend_link (popped h q) q) head [] ps t v.pend v.pend_distinct
        refl pop_queue.0 pop_agree

  pop_wait : Chain (wait_link (popped h q) q) head ws
  pop_wait =
      frame (wait_link h q) (wait_link (popped h q) q) head head ws v.wait pop_queue.2
        λ y i. ground (arith, pop_fields y, v.apart t, v.apart y)

last-mem : (p l : ℕ) (ps : List ℕ) → end_link (after p) ps ≡ after l → has l (p ∷ ps) ≡ true
last-mem p l ps e = elim (Bool-cases (l == p)) [
  | inl i ↦ rw i
  | inr n ↦ rw n (end_link-mem (after p) l ps (λ k. ground (arith, k)) e)
]

last_ne : (l t : ℕ) (xs : List ℕ) → has l xs ≡ true → has t xs ≡ false → (l == t) ≡ false
last_ne l t xs i n = elim (Bool-cases (l == t)) [
  | inl e ↦ absurd (ground (arith, ap (λ k. has k xs) ((==_iff l t).0 e)))
  | inr e ↦ e
]

drop_last-end :
    (l : Option ℕ) (t : ℕ) (ps : List ℕ)
    → has t ps ≡ false
    → end_link (after t) ps ≡ link_of l
    → end_link head ps ≡ link_of (drop_last l t)
drop_last-end none t [] n e = ground (arith, e)
drop_last-end (some l) t [] n e = ground (arith, e)
drop_last-end none t (p ∷ ps) n e = e
drop_last-end (some l) t (p ∷ ps) n e =
    let i = last-mem p l ps e in let ne : (l == t) ≡ false = last_ne l t (p ∷ ps) i n in rw ne e

module _ (h : Heap) (q t : ℕ) (ps ws : List ℕ) (v : IsQueue h q (t ∷ ps) ws) where
  -- `pr_task_pending_queue_pop` returns the task that was queued first and leaves the others in
  -- order.
  pub pop-IsQueue : ((pending_queue_pop h q).0 ≡ some t) × IsQueue (popped h q) q ps ws
  pop-IsQueue = (
    (pop_queue h q t ps ws v).3,
    record {
      pend = pop_pend h q t ps ws v;
      wait = pop_wait h q t ps ws v;
      last =
          drop_last-end (h.queues q).last t ps v.pend_distinct.0 v.last
          ∙ ap link_of (sym (pop_queue h q t ps ws v).1);
      pend_distinct = v.pend_distinct.1;
      wait_distinct = v.wait_distinct;
      apart = λ x i. ground (arith, v.apart x);
      flags = λ x m. ground (arith, pop_fields h q t ps ws v x, v.flags x, v.pend_distinct.0);
      owned = λ x i. ground (arith, pop_fields h q t ps ws v x, v.owned x);
      sorted =
          Sorted-agree (due_at h) (due_at (popped h q)) ws (λ x i. (pop_fields h q t ps ws v x).3)
            v.sorted;
    },
  )

-- `pr_task_pending_queue_pop` and `pr_task_wait_queue_pop` on an empty list.
pub pop_empty :
    (h : Heap) (q : ℕ) (ws : List ℕ) → IsQueue h q [] ws → pending_queue_pop h q ≡ (none, h)
unfolding pending_queue_pop
pop_empty h q ws v = ground (arith, v.pend)

-- `pr_task_wait_queue_pop` takes the task that is due first.
pub wait_pop-IsQueue :
    (h : Heap) (q t : ℕ) (ps ws : List ℕ)
    → IsQueue h q ps (t ∷ ws)
    → ((wait_queue_pop h q).0 ≡ some t) × IsQueue (wait_queue_pop h q).1 q ps ws
unfolding wait_queue_pop unlink
wait_pop-IsQueue h q t ps ws v =
    let self : (t == t) ≡ true = ground arith in
    let r = remove-IsQueue h q ps (t ∷ ws) v t (rw self) in
    rw (v.wait.0, wait_queue_pop) (refl, rw self at r)
