-- ===== src/Task.antt =====
-- src/task/task.c: tasks on a heap, linked through their `next` field into the pending list and
-- the waiting list of a queue. A pointer to a task or to a queue is a handle, `none` is NULL.
-- A critical section under the queue's spin lock is one function on the heap.
pub mod Chain
pub mod Links
pub mod Lists
pub mod Inv
pub mod Wait
pub mod Pop
pub mod Api
pub mod Exec
pub mod Timer
pub mod Run
pub mod Calls
mod Tests
use picore.Base.{
  ℕ, zero, suc, ◌==◌, Bool, true, false, not, ◌||◌, Option, none, some, if◌then◌else◌, ltb, leb,
}

-- `struct pr_task`; `flags` is kept as its two bits PENDING and WAITING.
pub record Task : Type 0 where
  pub next : Option ℕ
  pub pending : Bool
  pub waiting : Bool
  pub queue : Option ℕ
  pub handler : Option ℕ
  pub exec_at : ℕ

-- `struct pr_task_queue`; the alarm's identifier is `none` where it is negative.
pub record TaskQueue : Type 0 where
  pub first : Option ℕ
  pub last : Option ℕ
  pub waiting : Option ℕ
  pub alarm : Option ℕ

pub record Heap : Type 0 where
  pub tasks : ℕ → Task
  pub queues : ℕ → TaskQueue

abbrev pub update {ℓ} : {A : Type ℓ} → (ℕ → A) → ℕ → A → ℕ → A
update f p v x = if x == p then v else f x

abbrev pub put_task : Heap → ℕ → Task → Heap
put_task h t v = record h { tasks = update h.tasks t v }

abbrev pub put_queue : Heap → ℕ → TaskQueue → Heap
put_queue h q v = record h { queues = update h.queues q v }

-- `pr_task_init`
pub init : Heap → ℕ → Option ℕ → Option ℕ → Heap
init h t queue handler = put_task h t (record {
  next = none;
  pending = false;
  waiting = false;
  queue = queue;
  handler = handler;
  exec_at = 0;
})

-- What `struct pr_task **cur` points at: the list's head, or the `next` field of a task.
pub data Link : Type 0 where
  head : Link
  after : ℕ → Link

-- `*cur` and `*cur = p` in the waiting list of `q`.
abbrev pub wait_link : Heap → ℕ → Link → Option ℕ
wait_link h q head = (h.queues q).waiting
wait_link h q (after t) = (h.tasks t).next

abbrev pub set_wait_link : Heap → ℕ → Link → Option ℕ → Heap
set_wait_link h q head p = put_queue h q (record (h.queues q) { waiting = p })
set_wait_link h q (after t) p = put_task h t (record (h.tasks t) { next = p })

-- `task->next = NULL; task->flags &= ~PR_TASK_FLAG_WAITING; task->exec_at = 0;`
abbrev pub stop_waiting : Heap → ℕ → Heap
stop_waiting h t = put_task h t (record (h.tasks t) { next = none; waiting = false; exec_at = 0 })

-- The body of `pr_task_wait_queue_remove` where `*cur == task`.
pub unlink : Heap → ℕ → ℕ → Link → Heap
unlink h q t cur = stop_waiting (set_wait_link h q cur (h.tasks t).next) t

-- The loop of `pr_task_wait_queue_remove`, on fuel; `none` means that the fuel ran out.
pub remove_loop : ℕ → Heap → ℕ → ℕ → Link → Option Heap
remove_loop zero h q t cur = none
remove_loop (suc fuel) h q t cur = elim (wait_link h q cur) [
  | none ↦ some h
  | some x ↦ if x == t then some (unlink h q t cur) else remove_loop fuel h q t (after x)
]

-- `pr_task_wait_queue_pop`
pub wait_queue_pop : Heap → ℕ → Option ℕ × Heap
wait_queue_pop h q = elim ((h.queues q).waiting) [
  | none ↦ (none, h)
  | some t ↦
      (some t, stop_waiting (put_queue h q (record (h.queues q) { waiting = (h.tasks t).next })) t)
]

-- The writes of `pr_task_wait_queue_insert` after its loop.
pub splice : Heap → ℕ → ℕ → ℕ → Link → Heap
splice h q t at cur =
    set_wait_link
      (put_task h t (record (h.tasks t) { exec_at = at; waiting = true; next = wait_link h q cur }))
      q cur (some t)

-- `while (*cur && (*cur)->exec_at < at)`, on fuel, with what follows the loop.
pub insert_loop : ℕ → Heap → ℕ → ℕ → ℕ → Link → Option Heap
insert_loop zero h q t at cur = none
insert_loop (suc fuel) h q t at cur = elim (wait_link h q cur) [
  | none ↦ some (splice h q t at cur)
  | some x ↦
      if ltb (h.tasks x).exec_at at
      then insert_loop fuel h q t at (after x)
      else some (splice h q t at cur)
]

-- `pr_task_pending_queue_pop`
abbrev pub drop_last : Option ℕ → ℕ → Option ℕ
drop_last none t = none
drop_last (some l) t = if l == t then none else some l

pub pending_queue_pop : Heap → ℕ → Option ℕ × Heap
pending_queue_pop h q = elim ((h.queues q).first) [
  | none ↦ (none, h)
  | some t ↦
      let h1 =
        put_queue h q (record (h.queues q) {
          first = (h.tasks t).next;
          last = drop_last (h.queues q).last t;
        }) in
      (some t, put_task h1 t (record (h1.tasks t) { next = none; pending = false }))
]

-- `if (queue->last) queue->last->next = task;`
abbrev pub link_last : Option ℕ → Heap → ℕ → Heap
link_last none h t = h
link_last (some l) h t = put_task h l (record (h.tasks l) { next = some t })

-- `if (!queue->first) queue->first = task;`
abbrev pub or_else : Option ℕ → ℕ → Option ℕ
or_else none t = some t
or_else (some f) t = some f

-- `pr_task_pending_queue_insert`
pub pending_queue_insert : Heap → ℕ → ℕ → Heap
pending_queue_insert h q t =
    let h1 = put_task h t (record (h.tasks t) { pending = true; next = none }) in
    let h2 = link_last (h1.queues q).last h1 t in
    put_queue h2 q (record (h2.queues q) { last = some t; first = or_else (h2.queues q).first t })
