-- ===== src/Queue/Inv.antt =====
-- The representation invariant of `struct pr_queue`, kept by every operation.
use native.Mathlib.Nat.{mod-add-mod, mod-eq_of_lt, mod_self}
use native.Mathlib.Decide.{ℕ_discrete}
use picore.Base.{
  ℕ, ◌+◌, ◌-◌, ◌%◌, ◌≤◌, ◌<◌, ◌≡◌, ◌∙◌, sym, ap, arith, List, length, some, Option, length-set,
}
use picore.Queue.{Queue, init, bump, insert, remove, push, pop}

pub record IsValid (q : Queue) : Type 0 where
  pub storage : q.size ≤ length q.entry
  pub small : q.size < 4294967296
  pub rptr_in : q.rptr < q.size
  pub wptr_in : q.wptr < q.size
  pub whole : q.used + q.free ≡ q.size
  pub linked : q.wptr ≡ (q.rptr + q.used) % q.size

pub bump-mod : (size h : ℕ) → size < 4294967296 → h < size → bump size h ≡ (h + 1) % size
bump-mod size h small lt = elim (ℕ_discrete (h + 1) size) [
  | yes e ↦ ground (arith, mod_self size, ap (λ (t : ℕ). t % size) e)
  | no ne ↦ ground (arith, mod-eq_of_lt {n = h + 1} {m = size} (omega arith))
]

pub init-IsValid :
    (storage : List ℕ) (size : ℕ) {q : Queue}
    → size ≤ length storage
    → 0 < size
    → size < 4294967296
    → init (some storage) size ≡ some q
    → IsValid q
unfolding init
init-IsValid storage size fits pos small e = ground (arith, mod-eq_of_lt {n = 0} {m = size})

module _ {q : Queue} (v : IsValid q) where
  insert-linked : bump q.size q.wptr ≡ (q.rptr + (q.used + 1)) % q.size
  insert-linked =
      bump-mod q.size q.wptr v.small v.wptr_in
      ∙ ap (λ k. (k + 1) % q.size) v.linked
      ∙ mod-add-mod (q.rptr + q.used) q.size 1
      ∙ ap (λ k. k % q.size) (omega arith)

  remove-linked : 0 < q.used → q.wptr ≡ (bump q.size q.rptr + (q.used - 1)) % q.size
  remove-linked pos =
      v.linked
      ∙ ap (λ k. k % q.size) (omega arith)
      ∙ sym (mod-add-mod (q.rptr + 1) q.size (q.used - 1))
      ∙ ap (λ k. (k + (q.used - 1)) % q.size) (sym (bump-mod q.size q.rptr v.small v.rptr_in))

  pub insert-IsValid : (value : ℕ) → IsValid (insert q value).1
  unfolding insert
  insert-IsValid value = ground (arith, insert-linked, length-set q.entry q.wptr value)

  pub remove-IsValid : IsValid (remove q).2
  unfolding remove
  remove-IsValid = ground (arith, remove-linked)

module _ {W : Type 0} (exec : Option ℕ → W → W) (w : W) {q : Queue} (v : IsValid q) where
  -- On a valid queue, `pr_queue_push` and `pr_queue_pop` keep it valid, on both of their branches.
  push-pop-IsValid : (value : ℕ) → IsValid (push exec q value w).1 × IsValid (pop exec q w).2
  unfolding push pop
  push-pop-IsValid value = (insert-IsValid v value, remove-IsValid v)
