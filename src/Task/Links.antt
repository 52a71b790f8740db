-- ===== src/Task/Links.antt =====
-- What the loops over the waiting list find, and which links the writes behind them change.
use picore.Base.{
  ℕ, zero, suc, ◌<◌, ◌≡◌, refl, ap, true, false, ◌==◌, inl, inr, some, List, [], ◌∷◌, ◌++◌, arith,
  if◌then◌else◌, ltb, length, Bool-cases, ==_iff,
}
use picore.Task.{Heap, Link, head, after, wait_link, unlink, remove_loop, splice, insert_loop}
use picore.Task.Chain.{has, Chain, end_link, AgreeBut}

-- The tasks of a list that are due before `at`, up to the first that is not, and those from there.
abbrev pub before : (ℕ → ℕ) → ℕ → List ℕ → List ℕ
before due at [] = []
before due at (x ∷ xs) = if ltb (due x) at then x ∷ before due at xs else []

abbrev pub from : (ℕ → ℕ) → ℕ → List ℕ → List ℕ
from due at [] = []
from due at (x ∷ xs) = if ltb (due x) at then from due at xs else x ∷ xs

-- The tasks of a list in front of `t`, and those behind it.
abbrev pub until : ℕ → List ℕ → List ℕ
until t [] = []
until t (x ∷ xs) = if x == t then [] else x ∷ until t xs

abbrev pub past : ℕ → List ℕ → List ℕ
past t [] = []
past t (x ∷ xs) = if x == t then xs else past t xs

pub before-append-from :
    (due : ℕ → ℕ) (at : ℕ) (xs : List ℕ) → before due at xs ++ from due at xs ≡ xs
before-append-from due at [] = refl
before-append-from due at (x ∷ xs) = ground (arith, before-append-from due at xs)

pub until-append-past : (t : ℕ) (xs : List ℕ) → has t xs ≡ true → until t xs ++ t ∷ past t xs ≡ xs
until-append-past t [] h = ground arith
until-append-past t (x ∷ xs) h = ground (arith, until-append-past t xs)

abbrev pub due_at : Heap → ℕ → ℕ
due_at h t = (h.tasks t).exec_at

-- With fuel for the list, the insertion loop stops where the first later task stands.
pub insert_loop-splice :
    (fuel : ℕ) (h : Heap) (q t at : ℕ) (cur : Link) (xs : List ℕ)
    → Chain (wait_link h q) cur xs
    → length xs < fuel
    → insert_loop fuel h q t at cur
      ≡ some (splice h q t at (end_link cur (before (due_at h) at xs)))
unfolding insert_loop
insert_loop-splice zero h q t at cur xs c lt = absurd (omega arith)
insert_loop-splice (suc fuel) h q t at cur [] c lt = rw (c, insert_loop)
insert_loop-splice (suc fuel) h q t at cur (x ∷ xs) c lt =
    rw (c.0, insert_loop)
      (elim (Bool-cases (ltb (due_at h x) at)) [
        | inl e ↦ rw e (insert_loop-splice fuel h q t at (after x) xs c.1 (omega arith))
        | inr e ↦ rw e
      ])

-- With fuel for the list, the removal loop stops at the task, if the list holds it.
pub remove_loop-unlink :
    (fuel : ℕ) (h : Heap) (q t : ℕ) (cur : Link) (xs : List ℕ)
    → Chain (wait_link h q) cur xs
    → length xs < fuel
    → has t xs ≡ true
    → remove_loop fuel h q t cur ≡ some (unlink h q t (end_link cur (until t xs)))
unfolding remove_loop
remove_loop-unlink zero h q t cur xs c lt i = absurd (omega arith)
remove_loop-unlink (suc fuel) h q t cur [] c lt i = ground arith
remove_loop-unlink (suc fuel) h q t cur (x ∷ xs) c lt i =
    rw (c.0, remove_loop)
      (elim (Bool-cases (x == t)) [
        | inl e ↦ rw e
        | inr e ↦ rw e (remove_loop-unlink fuel h q t (after x) xs c.1 (omega arith) (ground arith))
      ])

pub ne-handle : (x y : ℕ) → ¬ (after x ≡ after y) → (x == y) ≡ false
ne-handle x y ne = elim (Bool-cases (x == y)) [
  | inl e ↦ absurd (ne (ap after ((==_iff x y).0 e)))
  | inr e ↦ e
]

module _ (h : Heap) (q t : ℕ) where
  pub splice_here : (at : ℕ) (cur : Link) → wait_link (splice h q t at cur) q cur ≡ some t
  unfolding splice
  splice_here at head = ground arith
  splice_here at (after l) = ground arith

  pub splice_next :
      (at : ℕ) (cur : Link)
      → ¬ (cur ≡ after t)
      → wait_link (splice h q t at cur) q (after t) ≡ wait_link h q cur
  unfolding splice
  splice_next at head ne = ground arith
  splice_next at (after l) ne = ground (arith, ne-handle l t ne)

  pub splice_agree :
      (at : ℕ) (cur : Link)
      → AgreeBut cur (after t) (wait_link h q) (wait_link (splice h q t at cur) q)
  unfolding splice
  splice_agree at head head n1 n2 = absurd (n1 refl)
  splice_agree at head (after x) n1 n2 = ground (arith, ne-handle x t n2)
  splice_agree at (after l) head n1 n2 = ground arith
  splice_agree at (after l) (after x) n1 n2 = ground (arith, ne-handle x t n2, ne-handle x l n1)

  pub unlink_here :
      (cur : Link)
      → ¬ (cur ≡ after t)
      → wait_link (unlink h q t cur) q cur ≡ wait_link h q (after t)
  unfolding unlink
  unlink_here head ne = ground arith
  unlink_here (after l) ne = ground (arith, ne-handle l t ne)

  pub unlink_agree :
      (cur : Link) → AgreeBut cur (after t) (wait_link h q) (wait_link (unlink h q t cur) q)
  unfolding unlink
  unlink_agree head head n1 n2 = absurd (n1 refl)
  unlink_agree head (after x) n1 n2 = ground (arith, ne-handle x t n2)
  unlink_agree (after l) head n1 n2 = ground arith
  unlink_agree (after l) (after x) n1 n2 = ground (arith, ne-handle x t n2, ne-handle x l n1)
