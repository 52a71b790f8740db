-- ===== src/Task/Inv.antt =====
-- The invariant of a task queue: which tasks its two lists hold, in which order, and how the flags
-- of its tasks mirror them (src/task/task.c).
use picore.Base.{
  ℕ, ◌≡◌, refl, sym, ap, ◌∙◌, true, false, ◌||◌, ◌==◌, Option, none, some, List, [], ◌∷◌, ◌++◌,
  append-nil, arith, Option-cases, inl, inr, Bool-cases,
}
use picore.Task.{Heap, Link, head, after, wait_link, pending_queue_insert}
use picore.Task.Chain.{
  has, Distinct, Chain, end_link, end_link-ne, after_ne, AgreeBut, frame, Chain-insert,
}
use picore.Task.Links.{due_at, ne-handle}
use picore.Task.Lists.{Sorted, has-insert, Distinct-insert, Sorted-agree}

-- The links of the pending list.
abbrev pub pend_link : Heap → ℕ → Link → Option ℕ
pend_link h q head = (h.queues q).first
pend_link h q (after t) = (h.tasks t).next

abbrev pub link_of : Option ℕ → Link
link_of none = head
link_of (some l) = after l

-- The queue `q` holds the pending tasks `ps`, first to run first, and the waiting tasks `ws`.
pub record IsQueue (h : Heap) (q : ℕ) (ps ws : List ℕ) : Type 0 where
  pub pend : Chain (pend_link h q) head ps
  pub wait : Chain (wait_link h q) head ws
  pub last : end_link head ps ≡ link_of (h.queues q).last
  pub pend_distinct : Distinct ps
  pub wait_distinct : Distinct ws
  pub apart : (x : ℕ) → has x ps ≡ true → has x ws ≡ false
  pub flags :
      (x : ℕ)
      → (h.tasks x).queue ≡ some q
      → ((h.tasks x).pending ≡ has x ps) × ((h.tasks x).waiting ≡ has x ws)
  pub owned : (x : ℕ) → (has x ps || has x ws) ≡ true → (h.tasks x).queue ≡ some q
  pub sorted : Sorted (due_at h) ws

pub end_link-mem :
    (cur : Link) (l : ℕ) (xs : List ℕ)
    → ¬ (cur ≡ after l)
    → end_link cur xs ≡ after l
    → has l xs ≡ true
end_link-mem cur l [] ne e = absurd (ne e)
end_link-mem cur l (x ∷ xs) ne e = elim (Bool-cases (l == x)) [
  | inl p ↦ rw p
  | inr p ↦ rw p (end_link-mem (after x) l xs (λ k. ground (arith, k)) e)
]

Chain-end :
    (lk : Link → Option ℕ) (cur : Link) (xs : List ℕ)
    → Chain lk cur xs
    → lk (end_link cur xs) ≡ none
Chain-end lk cur [] c = c
Chain-end lk cur (x ∷ xs) c = Chain-end lk (after x) xs c.1

end_link-append : (cur : Link) (xs : List ℕ) (t : ℕ) → end_link cur (xs ++ t ∷ []) ≡ after t
end_link-append cur [] t = refl
end_link-append cur (x ∷ xs) t = end_link-append (after x) xs t

Chain-first :
    (lk : Link → Option ℕ) (cur : Link) (xs : List ℕ) (l : ℕ)
    → Chain lk cur xs
    → ¬ (cur ≡ after l)
    → end_link cur xs ≡ after l
    → (f : ℕ) × (lk cur ≡ some f)
Chain-first lk cur [] l c ne e = absurd (ne e)
Chain-first lk cur (x ∷ xs) l c ne e = (x, c.0)

pub head-ne : (t : ℕ) → ¬ (head ≡ after t)
head-ne t e = cc

module _ (h : Heap) (q : ℕ) (ps ws : List ℕ) (v : IsQueue h q ps ws) (t : ℕ)
    (not_pending : has t ps ≡ false) (not_waiting : has t ws ≡ false)
    (mine : (h.tasks t).queue ≡ some q) where
  insert_last_ne : (l : ℕ) → (h.queues q).last ≡ some l → (has l ps ≡ true) × ((l == t) ≡ false)
  insert_last_ne l e =
      let i = end_link-mem head l ps (head-ne l) (v.last ∙ ap link_of e) in
      (i, ground (arith, i, not_pending))

  first_none : (h.queues q).last ≡ none → (h.queues q).first ≡ none
  first_none e =
      ap (pend_link h q) (sym (v.last ∙ ap link_of e)) ∙ Chain-end (pend_link h q) head ps v.pend

  first_some : (l : ℕ) → (h.queues q).last ≡ some l → (f : ℕ) × ((h.queues q).first ≡ some f)
  first_some l e = Chain-first (pend_link h q) head ps l v.pend (head-ne l) (v.last ∙ ap link_of e)

  insert_here : pend_link (pending_queue_insert h q t) q (end_link head ps) ≡ some t
  unfolding pending_queue_insert
  insert_here = elim (Option-cases (h.queues q).last) [
    | inl e ↦ rw (v.last ∙ ap link_of e) (ground (arith, first_none e))
    | inr (l, e) ↦ rw (v.last ∙ ap link_of e) (ground (arith, insert_last_ne l e))
  ]

  insert_next : pend_link (pending_queue_insert h q t) q (after t) ≡ none
  unfolding pending_queue_insert
  insert_next = elim (Option-cases (h.queues q).last) [
    | inl e ↦ ground arith
    | inr (l, e) ↦ ground (arith, insert_last_ne l e)
  ]

  insert_agree :
      AgreeBut
        (end_link head ps)
        (after t)
        (pend_link h q)
        (pend_link (pending_queue_insert h q t) q)
  unfolding pending_queue_insert
  insert_agree head n1 n2 = elim (Option-cases (h.queues q).last) [
    | inl e ↦ absurd (n1 (sym (v.last ∙ ap link_of e)))
    | inr (l, e) ↦ let (f, fe) = first_some l e in ground (arith, insert_last_ne l e)
  ]
  insert_agree (after x) n1 n2 = elim (Option-cases (h.queues q).last) [
    | inl e ↦ ground (arith, ne-handle x t n2)
    | inr (l, e) ↦
        ground (arith, ne-handle x t n2, ne-handle x l (λ k. n1 (k ∙ sym (v.last ∙ ap link_of e))))
  ]

  -- What the insertion leaves alone, and the one flag that it sets.
  pub insert_fields :
      (x : ℕ)
      → let a = (pending_queue_insert h q t).tasks x in
        let b = h.tasks x in
        (a.pending ≡ ((x == t) || b.pending))
        × (a.waiting ≡ b.waiting)
        × (a.queue ≡ b.queue)
        × (a.exec_at ≡ b.exec_at)
        × (a.handler ≡ b.handler)
  unfolding pending_queue_insert
  insert_fields x = elim (Option-cases (h.queues q).last) [
    | inl e ↦ ground arith
    | inr (l, e) ↦ ground arith
  ]

  insert_head : wait_link (pending_queue_insert h q t) q head ≡ wait_link h q head
  unfolding pending_queue_insert
  insert_head = elim (Option-cases (h.queues q).last) [
    | inl e ↦ ground arith
    | inr (l, e) ↦ ground arith
  ]

  not_both : (y : ℕ) → has y ws ≡ true → has y ps ≡ false
  not_both y i = ground (arith, v.apart y)

  insert_wait : Chain (wait_link (pending_queue_insert h q t) q) head ws
  insert_wait =
      frame (wait_link h q) (wait_link (pending_queue_insert h q t) q) head head ws v.wait
        insert_head
        λ y i.
          insert_agree (after y)
            (end_link-ne (after y) head ps (λ k. head-ne y (sym k)) (not_both y i))
            (after_ne y t (ground (arith, not_waiting)))

  insert_last : end_link head (ps ++ t ∷ []) ≡ link_of ((pending_queue_insert h q t).queues q).last
  unfolding pending_queue_insert
  insert_last = end_link-append head ps t ∙ ground arith

  insert_pend : Chain (pend_link (pending_queue_insert h q t) q) head (ps ++ t ∷ [])
  insert_pend =
      Chain-insert (pend_link h q) (pend_link (pending_queue_insert h q t) q) head ps [] t
        (rw append-nil v.pend) (rw append-nil v.pend_distinct) refl (rw append-nil not_pending)
        (head-ne t) insert_here (insert_next ∙ sym (Chain-end (pend_link h q) head ps v.pend))
        insert_agree

  insert_has : (x : ℕ) → has x (ps ++ t ∷ []) ≡ ((x == t) || has x ps)
  insert_has x = has-insert x t ps [] ∙ ap (λ l. (x == t) || has x l) (append-nil ps)

  -- `pr_task_pending_queue_insert` puts an idle task behind the pending ones.
  pub pending_insert-IsQueue : IsQueue (pending_queue_insert h q t) q (ps ++ t ∷ []) ws
  pending_insert-IsQueue = record {
    pend = insert_pend;
    wait = insert_wait;
    last = insert_last;
    pend_distinct =
        Distinct-insert t ps [] (rw append-nil v.pend_distinct) (rw append-nil not_pending);
    wait_distinct = v.wait_distinct;
    apart = λ x i. ground (arith, insert_has x, v.apart x, not_waiting);
    flags = λ x m. ground (arith, insert_fields x, insert_has x, v.flags x);
    owned = λ x i. ground (arith, insert_fields x, insert_has x, v.owned x, mine);
    sorted =
        Sorted-agree (due_at h) (due_at (pending_queue_insert h q t)) ws
          (λ x i. (insert_fields x).3) v.sorted;
  }
