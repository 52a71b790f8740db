-- ===== src/Task/Wait.antt =====
-- The waiting list of src/task/task.c under its insertion and its removal.
use picore.Base.{
  ℕ, ◌≡◌, refl, sym, ap, ap₂, subst, ◌∙◌, true, false, ◌||◌, ◌==◌, some, List, ◌∷◌, ◌++◌, arith,
  if◌then◌else◌, length, suc,
}
use picore.Task.{Heap, Link, head, after, wait_link, unlink, splice}
use picore.Task.Chain.{
  has, Distinct, Chain, end_link, end_link-ne, after_ne, frame, Chain-insert, Chain-remove,
  has-append_left,
}
use picore.Task.Links.{
  before, from, until, past, due_at, before-append-from, until-append-past, splice_here,
  splice_next, splice_agree, unlink_here, unlink_agree,
}
use picore.Task.Lists.{
  Sorted, has-insert, Distinct-insert, Distinct-remove, Sorted-agree, Sorted-remove, Sorted-insert,
  before-agree, length-insert,
}
use picore.Task.Inv.{IsQueue, pend_link, link_of, head-ne}

-- A list less one of its tasks.
abbrev pub without : ℕ → List ℕ → List ℕ
without t ws = until t ws ++ past t ws

-- The waiting list with a task put in at its due time.
abbrev pub scheduled : (ℕ → ℕ) → ℕ → ℕ → List ℕ → List ℕ
scheduled due t at ws = before due at ws ++ t ∷ from due at ws

-- The heap after a task is taken out of the waiting list, and after it is put in.
abbrev pub removed : Heap → ℕ → ℕ → List ℕ → Heap
removed h q t ws = unlink h q t (end_link head (until t ws))

abbrev pub inserted : Heap → ℕ → ℕ → ℕ → List ℕ → Heap
inserted h q t at ws = splice h q t at (end_link head (before (due_at h) at ws))

pub unlink_fields :
    (h : Heap) (q t : ℕ) (cur : Link) (x : ℕ)
    → let a = (unlink h q t cur).tasks x in
      let b = h.tasks x in
      (a.pending ≡ b.pending)
      × (a.waiting ≡ (if x == t then false else b.waiting))
      × (a.queue ≡ b.queue)
      × (a.exec_at ≡ (if x == t then 0 else b.exec_at))
      × (a.handler ≡ b.handler)
unfolding unlink
unlink_fields h q t head x = ground arith
unlink_fields h q t (after l) x = ground arith

unlink_queue :
    (h : Heap) (q t : ℕ) (cur : Link)
    → (((unlink h q t cur).queues q).first ≡ (h.queues q).first)
      × (((unlink h q t cur).queues q).last ≡ (h.queues q).last)
unfolding unlink
unlink_queue h q t head = ground arith
unlink_queue h q t (after l) = ground arith

pub splice_fields :
    (h : Heap) (q t at : ℕ) (cur : Link) (x : ℕ)
    → let a = (splice h q t at cur).tasks x in
      let b = h.tasks x in
      (a.pending ≡ b.pending)
      × (a.waiting ≡ (if x == t then true else b.waiting))
      × (a.queue ≡ b.queue)
      × (a.exec_at ≡ (if x == t then at else b.exec_at))
      × (a.handler ≡ b.handler)
unfolding splice
splice_fields h q t at head x = ground arith
splice_fields h q t at (after l) x = ground arith

splice_queue :
    (h : Heap) (q t at : ℕ) (cur : Link)
    → (((splice h q t at cur).queues q).first ≡ (h.queues q).first)
      × (((splice h q t at cur).queues q).last ≡ (h.queues q).last)
unfolding splice
splice_queue h q t at head = ground arith
splice_queue h q t at (after l) = ground arith

module _ (h : Heap) (q : ℕ) (ps ws : List ℕ) (v : IsQueue h q ps ws) where
  -- The tasks of the pending list keep their links where only links of waiting tasks are written.
  pend_kept :
      (h' : Heap) (t : ℕ) (xs : List ℕ)
      → (h'.queues q).first ≡ (h.queues q).first
      → ((y : ℕ)
          → ¬ (after y ≡ end_link head xs)
          → ¬ (after y ≡ after t)
          → (h'.tasks y).next ≡ (h.tasks y).next)
      → ((y : ℕ) → has y ps ≡ true → (has y xs ≡ false) × ((y == t) ≡ false))
      → Chain (pend_link h' q) head ps
  pend_kept h' t xs first same out =
      frame (pend_link h q) (pend_link h' q) head head ps v.pend first λ y i.
        same y (end_link-ne (after y) head xs (λ k. head-ne y (sym k)) (out y i).0)
          (after_ne y t (out y i).1)

module _ (h : Heap) (q : ℕ) (ps ws : List ℕ) (v : IsQueue h q ps ws) (t : ℕ)
    (held : has t ws ≡ true) where
  split : until t ws ++ t ∷ past t ws ≡ ws
  split = until-append-past t ws held

  pub split_has : (x : ℕ) → has x ws ≡ ((x == t) || has x (without t ws))
  split_has x = ap (has x) (sym split) ∙ has-insert x t (until t ws) (past t ws)

  pub split-Distinct : Distinct (without t ws) × (has t (without t ws) ≡ false)
  split-Distinct = Distinct-remove t (until t ws) (past t ws) (rw split v.wait_distinct)

  spot_ne : ¬ (end_link head (until t ws) ≡ after t)
  spot_ne k =
      end_link-ne (after t) head (until t ws) (λ e. head-ne t (sym e))
        (has-append_left t (until t ws) (past t ws) split-Distinct.1) (sym k)

  removed_wait : Chain (wait_link (removed h q t ws) q) head (without t ws)
  removed_wait =
      Chain-remove (wait_link h q) (wait_link (removed h q t ws) q) head (until t ws) (past t ws) t
        (rw split v.wait) (rw split v.wait_distinct) refl
        (unlink_here h q t (end_link head (until t ws)) spot_ne)
        (unlink_agree h q t (end_link head (until t ws)))

  removed_out : (y : ℕ) → has y ps ≡ true → (has y (until t ws) ≡ false) × ((y == t) ≡ false)
  removed_out y i =
      ground (arith, v.apart y, split_has y, held, has-append_left y (until t ws) (past t ws))

  -- `pr_task_wait_queue_remove` takes the task out and leaves the order of the others.
  pub remove-IsQueue : IsQueue (removed h q t ws) q ps (without t ws)
  remove-IsQueue =
      let cur = end_link head (until t ws) in
      record {
        pend =
            pend_kept h q ps ws v (removed h q t ws) t (until t ws) (unlink_queue h q t cur).0
              (λ y n1 n2. unlink_agree h q t cur (after y) n1 n2) removed_out;
        wait = removed_wait;
        last = v.last ∙ ap link_of (sym (unlink_queue h q t cur).1);
        pend_distinct = v.pend_distinct;
        wait_distinct = split-Distinct.0;
        apart = λ x i. ground (arith, v.apart x, split_has x);
        flags = λ x m.
            ground (arith, unlink_fields h q t cur x, split_has x, v.flags x, split-Distinct);
        owned = λ x i. ground (arith, unlink_fields h q t cur x, split_has x, v.owned x);
        sorted =
            Sorted-agree (due_at h) (due_at (removed h q t ws)) (without t ws)
              (λ x i. ground (arith, unlink_fields h q t cur x, split-Distinct))
              (Sorted-remove (due_at h) t (until t ws) (past t ws) (rw split v.sorted));
      }

pub length-without :
    (t : ℕ) (ws : List ℕ) → has t ws ≡ true → suc (length (without t ws)) ≡ length ws
length-without t ws held =
    sym (length-insert t (until t ws) (past t ws)) ∙ ap length (until-append-past t ws held)

pub due_at-inserted : (h : Heap) (q t at : ℕ) (ws : List ℕ) → due_at (inserted h q t at ws) t ≡ at
due_at-inserted h q t at ws =
    ground (arith, splice_fields h q t at (end_link head (before (due_at h) at ws)) t)

module _ (h : Heap) (q : ℕ) (ps ws : List ℕ) (v : IsQueue h q ps ws) (t at : ℕ)
    (not_pending : has t ps ≡ false) (not_waiting : has t ws ≡ false)
    (mine : (h.tasks t).queue ≡ some q) where
  join : before (due_at h) at ws ++ from (due_at h) at ws ≡ ws
  join = before-append-from (due_at h) at ws

  before_out : (y : ℕ) → has y ws ≡ false → has y (before (due_at h) at ws) ≡ false
  before_out y i = has-append_left y (before (due_at h) at ws) (from (due_at h) at ws) (rw join i)

  inserted_ne : ¬ (end_link head (before (due_at h) at ws) ≡ after t)
  inserted_ne k =
      end_link-ne (after t) head (before (due_at h) at ws) (λ e. head-ne t (sym e))
        (before_out t not_waiting) (sym k)

  inserted_wait : Chain (wait_link (inserted h q t at ws) q) head (scheduled (due_at h) t at ws)
  inserted_wait =
      Chain-insert (wait_link h q) (wait_link (inserted h q t at ws) q) head
        (before (due_at h) at ws) (from (due_at h) at ws) t (rw join v.wait)
        (rw join v.wait_distinct) refl (rw join not_waiting) (head-ne t)
        (splice_here h q t at (end_link head (before (due_at h) at ws)))
        (splice_next h q t at (end_link head (before (due_at h) at ws)) inserted_ne)
        (splice_agree h q t at (end_link head (before (due_at h) at ws)))

  inserted_has : (x : ℕ) → has x (scheduled (due_at h) t at ws) ≡ ((x == t) || has x ws)
  inserted_has x =
      has-insert x t (before (due_at h) at ws) (from (due_at h) at ws)
      ∙ ap (λ l. (x == t) || has x l) join

  inserted_out :
      (y : ℕ) → has y ps ≡ true → (has y (before (due_at h) at ws) ≡ false) × ((y == t) ≡ false)
  inserted_out y i = (before_out y (v.apart y i), ground (arith, not_pending))

  inserted-Sorted : Sorted (due_at (inserted h q t at ws)) (scheduled (due_at h) t at ws)
  inserted-Sorted =
      let h' = inserted h q t at ws in
      let same : (x : ℕ) → has x ws ≡ true → due_at h' x ≡ due_at h x = λ x i.
        ground (
          arith,
          splice_fields h q t at (end_link head (before (due_at h) at ws)) x,
          not_waiting,
        ) in
      let places = before-agree (due_at h) (due_at h') at ws same in
      subst (λ l. Sorted (due_at h') l) (ap₂ (λ a b. a ++ t ∷ b) places.0 places.1)
        (Sorted-insert (due_at h') t at ws (Sorted-agree (due_at h) (due_at h') ws same v.sorted)
          (ground (arith, splice_fields h q t at (end_link head (before (due_at h) at ws)) t)))

  -- `pr_task_wait_queue_insert` puts an idle task into the sorted list, behind those due before it
  -- and in front of those due at the same time.
  pub insert-IsQueue : IsQueue (inserted h q t at ws) q ps (scheduled (due_at h) t at ws)
  insert-IsQueue =
      let cur = end_link head (before (due_at h) at ws) in
      record {
        pend =
            pend_kept h q ps ws v (inserted h q t at ws) t (before (due_at h) at ws)
              (splice_queue h q t at cur).0 (λ y n1 n2. splice_agree h q t at cur (after y) n1 n2)
              inserted_out;
        wait = inserted_wait;
        last = v.last ∙ ap link_of (sym (splice_queue h q t at cur).1);
        pend_distinct = v.pend_distinct;
        wait_distinct =
            Distinct-insert t (before (due_at h) at ws) (from (due_at h) at ws)
              (rw join v.wait_distinct) (rw join not_waiting);
        apart = λ x i. ground (arith, v.apart x, inserted_has x, not_pending);
        flags = λ x m. ground (arith, splice_fields h q t at cur x, inserted_has x, v.flags x);
        owned =
            λ x i. ground (arith, splice_fields h q t at cur x, inserted_has x, v.owned x, mine);
        sorted = inserted-Sorted;
      }
