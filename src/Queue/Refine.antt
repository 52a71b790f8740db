-- ===== src/Queue/Refine.antt =====
-- A valid queue behaves as the bounded list of its entries, oldest first.
use picore.Base.{
  ℕ, zero, suc, ◌+◌, ◌-◌, ◌%◌, ◌<◌, ◌≡◌, ◌≢◌, refl, ap, arith, List, [], ◌∷◌, ◌++◌, Option, none,
  length, get_or, set, window, length-window, window-set, if◌then◌else◌,
}
use picore.Error.{is_ok}
use picore.Queue.{Queue, insert, remove, push, pop}
use picore.Queue.Inv.{IsValid, insert-IsValid, remove-IsValid, bump-mod}
use picore.Queue.Spec.{Op, put, get, Reply, append_bounded, take_first, replies}

abbrev pub contents : Queue → List ℕ
contents q = window q.entry q.size q.rptr q.used

pub length-contents : (q : Queue) → length (contents q) ≡ q.used
length-contents q = length-window q.entry q.size q.rptr q.used

-- `window` matches on `suc`, the code tests `used`.
window_pos :
    (buf : List ℕ) (size h n : ℕ)
    → n ≢ 0
    → window buf size h n ≡ get_or buf h 0 ∷ window buf size ((h + 1) % size) (n - 1)
window_pos buf size h zero p = absurd (p refl)
window_pos buf size h (suc n) p = ap (λ k. window buf size h (suc k)) (omega arith)

module _ {q : Queue} (v : IsValid q) where
  insert-contents :
      (value : ℕ)
      → 0 < q.free
      → window (set q.entry q.wptr value) q.size q.rptr (suc q.used) ≡ contents q ++ (value ∷ [])
  insert-contents value pos =
      window-set q.entry q.size value q.used q.rptr q.wptr v.storage v.rptr_in
        (omega (arith, v.whole)) v.linked

  insert_refines :
      (value : ℕ)
      → let (e, q') = insert q value in (e, contents q') ≡ append_bounded q.size (contents q) value
  unfolding insert append_bounded
  insert_refines value = ground (arith, insert-contents value, length-contents q)

  remove_refines : let (e, out, q') = remove q in (e, out, contents q') ≡ take_first (contents q)
  unfolding remove take_first
  remove_refines =
      ground
        (arith, window_pos q.entry q.size q.rptr q.used, bump-mod q.size q.rptr v.small v.rptr_in)

  size-insert : (value : ℕ) → (insert q value).1.size ≡ q.size
  unfolding insert
  size-insert value = ground arith

  size-remove : (remove q).2.size ≡ q.size
  unfolding remove
  size-remove = ground arith

module _ {W : Type 0} (exec : Option ℕ → W → W) where
  -- On a valid queue, `pr_queue_push` appends the entry and wakes the consumer where there is room; else it returns
  -- `PR_ERR_MEMORY`, and changes neither the entries nor the scheduler.
  push_refines :
      {q : Queue} (value : ℕ) (w : W)
      → IsValid q
      → let (e, q', w') = push exec q value w in
        ((e, contents q') ≡ append_bounded q.size (contents q) value)
        × (w' ≡ (if is_ok e then exec q.consumer w else w))
  unfolding push
  push_refines {q} value w v = (insert_refines v value, ground arith)

  -- On a valid queue, `pr_queue_pop` returns and drops the oldest entry and wakes the producer where there is one;
  -- else it returns `PR_ERR_MEMORY`, and changes neither the entries nor the scheduler.
  pop_refines :
      {q : Queue} (w : W)
      → IsValid q
      → let (e, out, q', w') = pop exec q w in
        ((e, out, contents q') ≡ take_first (contents q))
        × (w' ≡ (if is_ok e then exec q.producer w else w))
  unfolding pop
  pop_refines {q} w v = (remove_refines v, ground arith)

  -- A client's calls in order, with what each returns.
  unfoldable pub run : Queue → W → List Op → List Reply
  unfolding push pop
  run q w [] = []
  run q w (put value ∷ ops) = let (e, q', w') = push exec q value w in (e, none) ∷ run q' w' ops
  run q w (get ∷ ops) = let (e, out, q', w') = pop exec q w in (e, out) ∷ run q' w' ops

  -- No sequence of calls tells a valid queue from the bounded list of its entries.
  pub run_refines :
      (ops : List Op) {q : Queue} (w : W)
      → IsValid q
      → run q w ops ≡ replies q.size (contents q) ops
  unfolding run replies
  run_refines [] w v = refl
  run_refines (put value ∷ ops) {q} w v = rw (
    run_refines ops (push exec q value w).2 (insert-IsValid v value),
    ← insert_refines v value,
    size-insert v value,
  )
  run_refines (get ∷ ops) {q} w v =
      rw (run_refines ops (pop exec q w).3 (remove-IsValid v), ← remove_refines v, size-remove v)
