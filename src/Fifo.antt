-- ===== src/Fifo.antt =====
-- src/fifo/fifo.c: the byte ring buffer with its two-phase (prepare, done) access.
-- A critical section under the spin lock is one function on the state; `exec` stands for
-- `pr_task_exec`, which acts on the scheduler's state `W`. A pointer into `buffer` is its index.
pub mod Inv
pub mod Contents
pub mod Write
pub mod Read
pub mod Grants
pub mod Short
pub mod Steps
mod Tests
use picore.Base.{
  ℕ, zero, suc, ◌+◌, ◌==◌, Bool, Option, none, some, List, [], ◌++◌, take, drop, if◌then◌else◌, ltb,
  add32, sub32, slice, blit, length,
}

-- `struct pr_fifo`. A task pointer is a handle, `none` is NULL.
pub record Fifo : Type 0 where
  pub consumer : Option ℕ
  pub producer : Option ℕ
  pub buffer : List ℕ
  pub size : ℕ
  pub wptr : ℕ
  pub rptr : ℕ
  pub free : ℕ
  pub used : ℕ

-- `pr_fifo_init`: `storage` is what `malloc(size)` returns, and `none` is the failed assertion.
pub init : Option (List ℕ) → ℕ → Option Fifo
init none size = none
init (some storage) size = some (record {
  consumer = none;
  producer = none;
  buffer = storage;
  size = size;
  wptr = 0;
  rptr = 0;
  free = size;
  used = 0;
})

-- `lock_no` is claimed by the first initialisation alone; `none` is its initial -1.
pub init_lock : Option ℕ → ℕ → Option ℕ
init_lock none claimed = some claimed
init_lock (some held) claimed = some held

pub clear : Fifo → Fifo
clear f = record f { used = 0; free = f.size; rptr = 0; wptr = 0 }

pub is_empty : Fifo → Bool
is_empty f = f.used == 0

pub is_full : Fifo → Bool
is_full f = f.free == 0

pub available : Fifo → ℕ
available f = f.used

pub free_space : Fifo → ℕ
free_space f = f.free

unfoldable pub consumer_set : Fifo → Option ℕ → Fifo
consumer_set f task = record f { consumer = task }

unfoldable pub producer_set : Fifo → Option ℕ → Fifo
producer_set f task = record f { producer = task }

-- `if (bound < size) size = bound;`
abbrev pub clip : ℕ → ℕ → ℕ
clip bound size = if ltb bound size then bound else size

-- `ptr += size; if (ptr == end) ptr = 0;`
abbrev pub advance : ℕ → ℕ → ℕ → ℕ
advance end ptr size = if add32 ptr size == end then 0 else add32 ptr size

-- The part of a request that is stored contiguously.
abbrev pub read_size : Fifo → ℕ → ℕ
read_size f size = clip (sub32 f.size f.rptr) (clip f.used size)

abbrev pub write_size : Fifo → ℕ → ℕ
write_size f size = clip (sub32 f.size f.wptr) (clip f.free size)

abbrev pub claim : Fifo → ℕ → Fifo
claim f size =
    if size == 0
    then f
    else record f { used = sub32 f.used size; rptr = advance f.size f.rptr size }

abbrev pub reserve : Fifo → ℕ → Fifo
reserve f size =
    if size == 0
    then f
    else record f { free = sub32 f.free size; wptr = advance f.size f.wptr size }

-- What a prepare returns: the size granted, the pointer stored through `data`, the state after.
pub record Grant : Type 0 where
  pub count : ℕ
  pub offset : ℕ
  pub fifo : Fifo

pub read_prepare : Fifo → ℕ → Grant
read_prepare f size = record {
  count = read_size f size;
  offset = f.rptr;
  fifo = claim f (read_size f size);
}

pub write_prepare : Fifo → ℕ → Grant
write_prepare f size = record {
  count = write_size f size;
  offset = f.wptr;
  fifo = reserve f (write_size f size);
}

-- `pr_fifo_peek`: what is copied to `data`; its length is the value returned.
pub peek : Fifo → ℕ → List ℕ
peek f size =
    let n = clip f.used size in
    let s1 = clip (sub32 f.size f.rptr) n in
    let s2 = if ltb (sub32 f.size f.rptr) n then sub32 n (sub32 f.size f.rptr) else 0 in
    slice f.buffer f.rptr s1 ++ slice f.buffer 0 s2

-- `memcpy` to a pointer that a write prepare granted.
pub store : Fifo → ℕ → List ℕ → Fifo
store f offset bytes = record f { buffer = blit f.buffer offset bytes }

module _ {W : Type 0} (exec : Option ℕ → W → W) where
  pub read_done : Fifo → ℕ → W → Fifo × W
  read_done f size w =
      if size == 0 then (f, w) else (record f { free = add32 f.free size }, exec f.producer w)

  pub write_done : Fifo → ℕ → W → Fifo × W
  write_done f size w =
      if size == 0 then (f, w) else (record f { used = add32 f.used size }, exec f.consumer w)

  -- One round of the loop of `pr_fifo_write`, at `done` bytes: the bytes transferred, the state.
  pub write_round : Fifo → W → List ℕ → ℕ → ℕ → ℕ × Fifo × W
  unfolding write_prepare store write_done
  write_round f w bytes size done =
      let g = write_prepare f (sub32 size done) in
      let filled = store g.fifo g.offset (take g.count (drop done bytes)) in
      if g.count == 0
      then (0, g.fifo, w)
      else (let (f', w') = write_done filled g.count w in (g.count, f', w'))

  -- `do … while (transferred)` on fuel; `none` means that the fuel ran out.
  pub write_loop : ℕ → Fifo → W → List ℕ → ℕ → ℕ → Option (ℕ × Fifo × W)
  write_loop zero f w bytes size done = none
  write_loop (suc fuel) f w bytes size done =
      let (moved, f', w') = write_round f w bytes size done in
      let rest = write_loop fuel f' w' bytes size (done + moved) in
      if moved == 0 then some (done, f', w') else rest

  pub write : Fifo → W → List ℕ → ℕ → Option (ℕ × Fifo × W)
  unfolding write_loop write_round
  write f w bytes size =
      if size == 0 then some (0, f, w) else write_loop (size + 1) f w bytes size 0

  -- One round of the loop of `pr_fifo_read`: the bytes copied to `data + done`, the state.
  pub read_round : Fifo → W → ℕ → ℕ → List ℕ × Fifo × W
  unfolding read_prepare read_done
  read_round f w size done =
      let g = read_prepare f (sub32 size done) in
      if g.count == 0
      then ([], g.fifo, w)
      else (let (f', w') = read_done g.fifo g.count w in
          (slice g.fifo.buffer g.offset g.count, f', w'))

  -- The loop's condition reads the outer `transferred`, which nothing assigns: the declaration in
  -- the body shadows it. `outer k` is the indeterminate value that round `k` reads. `out` is what
  -- has been copied to `data` so far, `done` its length.
  pub read_loop : (ℕ → ℕ) → ℕ → ℕ → Fifo → W → ℕ → List ℕ → Option (List ℕ × Fifo × W)
  read_loop outer zero k f w size out = none
  read_loop outer (suc fuel) k f w size out =
      let (bytes, f', w') = read_round f w size (length out) in
      let rest = read_loop outer fuel (k + 1) f' w' size (out ++ bytes) in
      if outer k == 0 then some (out ++ bytes, f', w') else rest

  pub read : (ℕ → ℕ) → ℕ → Fifo → W → ℕ → Option (List ℕ × Fifo × W)
  unfolding read_loop read_round
  read outer fuel f w size =
      if size == 0 then some ([], f, w) else read_loop outer fuel 0 f w size []
