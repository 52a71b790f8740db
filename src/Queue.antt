-- ===== src/Queue.antt =====
-- src/queue/queue.c: the bounded queue of pointers. `exec` stands for `pr_task_exec`, which acts on
-- the scheduler's state `W`; an entry is the pointer's value.
pub mod Inv
pub mod Spec
pub mod Refine
mod Tests
use picore.Base.{
  ℕ, ◌==◌, Bool, Option, none, some, List, if◌then◌else◌, ltb, leb, add32, sub32, get_or, set,
}
use picore.Error.{Error, ok, memory, is_ok}

-- `struct pr_queue`. A task pointer is a handle, `none` is NULL.
pub record Queue : Type 0 where
  pub consumer : Option ℕ
  pub producer : Option ℕ
  pub entry : List ℕ
  pub size : ℕ
  pub wptr : ℕ
  pub rptr : ℕ
  pub free : ℕ
  pub used : ℕ

-- `lock_init`: the lock is claimed once; `none` is NULL.
pub lock_init : Option ℕ → ℕ → Option ℕ
lock_init none claimed = some claimed
lock_init (some held) claimed = some held

-- `pr_queue_init`: `storage` is what `malloc` returns, and `none` is the failed assertion.
pub init : Option (List ℕ) → ℕ → Option Queue
init none size = none
init (some storage) size = some (record {
  consumer = none;
  producer = none;
  entry = storage;
  size = size;
  wptr = 0;
  rptr = 0;
  free = size;
  used = 0;
})

pub is_empty : Queue → Bool
is_empty q = q.used == 0

pub is_full : Queue → Bool
is_full q = q.free == 0

pub available : Queue → ℕ
available q = q.used

pub free_space : Queue → ℕ
free_space q = q.free

pub consumer_set : Queue → Option ℕ → Queue
consumer_set q task = record q { consumer = task }

pub producer_set : Queue → Option ℕ → Queue
producer_set q task = record q { producer = task }

-- `ptr++; if (ptr >= size) ptr = 0;`
abbrev pub bump : ℕ → ℕ → ℕ
bump size ptr = if leb size (add32 ptr 1) then 0 else add32 ptr 1

-- The critical section of `pr_queue_push`.
pub insert : Queue → ℕ → Error × Queue
insert q value = if q.free == 0 then (memory, q) else (
  ok,
  record q {
    free = sub32 q.free 1;
    used = add32 q.used 1;
    entry = set q.entry q.wptr value;
    wptr = bump q.size q.wptr;
  },
)

-- The critical section of `pr_queue_pop`; the option is what is stored through `entry`.
pub remove : Queue → Error × Option ℕ × Queue
remove q = if q.used == 0 then (memory, none, q) else (
  ok,
  some (get_or q.entry q.rptr 0),
  record q { free = add32 q.free 1; used = sub32 q.used 1; rptr = bump q.size q.rptr },
)

module _ {W : Type 0} (exec : Option ℕ → W → W) where
  pub push : Queue → ℕ → W → Error × Queue × W
  unfolding insert
  push q value w =
      let (e, q') = insert q value in (e, q', if is_ok e then exec q'.consumer w else w)

  pub pop : Queue → W → Error × Option ℕ × Queue × W
  unfolding remove
  pop q w = let (e, out, q') = remove q in (e, out, q', if is_ok e then exec q'.producer w else w)
