-- ===== src/Task/Lists.antt =====
-- Lists of distinct tasks: membership, and what an insertion or a removal does to the order.
use picore.Base.{
  ℕ, ◌≤◌, ◌≡◌, refl, true, false, ◌||◌, ◌==◌, List, [], ◌∷◌, ◌++◌, arith, ltb, Bool-cases, inl, inr,
  length, suc, ap,
}
use picore.Task.Chain.{has, Distinct}
use picore.Task.Links.{before, from}

pub has-insert : (x t : ℕ) (xs ys : List ℕ) → has x (xs ++ t ∷ ys) ≡ ((x == t) || has x (xs ++ ys))
has-insert x t [] ys = refl
has-insert x t (z ∷ xs) ys = ground (arith, has-insert x t xs ys)

pub Distinct-insert :
    (t : ℕ) (xs ys : List ℕ)
    → Distinct (xs ++ ys)
    → has t (xs ++ ys) ≡ false
    → Distinct (xs ++ t ∷ ys)
Distinct-insert t [] ys d n = (n, d)
Distinct-insert t (x ∷ xs) ys d n =
    (ground (arith, has-insert x t xs ys, d.0), Distinct-insert t xs ys d.1 (ground arith))

pub Distinct-remove :
    (t : ℕ) (xs ys : List ℕ)
    → Distinct (xs ++ t ∷ ys)
    → Distinct (xs ++ ys) × (has t (xs ++ ys) ≡ false)
Distinct-remove t [] ys d = (d.1, d.0)
Distinct-remove t (x ∷ xs) ys d =
    let rest = Distinct-remove t xs ys d.1 in
    let out = has-insert x t xs ys in ((ground (arith, d.0), rest.0), ground (arith, d.0))

-- Every task of the list is due at `b` or later.
abbrev pub DueFrom : (ℕ → ℕ) → ℕ → List ℕ → Type 0
DueFrom due b [] = Unit
DueFrom due b (x ∷ xs) = (b ≤ due x) × DueFrom due b xs

abbrev pub Sorted : (ℕ → ℕ) → List ℕ → Type 0
Sorted due [] = Unit
Sorted due (x ∷ xs) = DueFrom due (due x) xs × Sorted due xs

pub DueFrom-weaken :
    (due : ℕ → ℕ) (a b : ℕ) (xs : List ℕ) → a ≤ b → DueFrom due b xs → DueFrom due a xs
DueFrom-weaken due a b [] le d = d
DueFrom-weaken due a b (x ∷ xs) le d = (omega arith, DueFrom-weaken due a b xs le d.1)

DueFrom-agree :
    (due due' : ℕ → ℕ) (b : ℕ) (xs : List ℕ)
    → ((x : ℕ) → has x xs ≡ true → due' x ≡ due x)
    → DueFrom due b xs
    → DueFrom due' b xs
DueFrom-agree due due' b [] same d = d
DueFrom-agree due due' b (x ∷ xs) same d = (
  omega (arith, same x (ground arith)),
  DueFrom-agree due due' b xs (λ y i. same y (ground arith)) d.1,
)

-- Order depends on the due times of the tasks of the list alone.
pub Sorted-agree :
    (due due' : ℕ → ℕ) (xs : List ℕ)
    → ((x : ℕ) → has x xs ≡ true → due' x ≡ due x)
    → Sorted due xs
    → Sorted due' xs
Sorted-agree due due' [] same s = s
Sorted-agree due due' (x ∷ xs) same s =
    let here : due' x ≡ due x = same x (ground arith) in
    (
      rw here (DueFrom-agree due due' (due x) xs (λ y i. same y (ground arith)) s.0),
      Sorted-agree due due' xs (λ y i. same y (ground arith)) s.1,
    )

DueFrom-remove :
    (due : ℕ → ℕ) (b t : ℕ) (xs ys : List ℕ)
    → DueFrom due b (xs ++ t ∷ ys)
    → DueFrom due b (xs ++ ys)
DueFrom-remove due b t [] ys d = d.1
DueFrom-remove due b t (x ∷ xs) ys d = (d.0, DueFrom-remove due b t xs ys d.1)

pub Sorted-remove :
    (due : ℕ → ℕ) (t : ℕ) (xs ys : List ℕ) → Sorted due (xs ++ t ∷ ys) → Sorted due (xs ++ ys)
Sorted-remove due t [] ys s = s.1
Sorted-remove due t (x ∷ xs) ys s =
    (DueFrom-remove due (due x) t xs ys s.0, Sorted-remove due t xs ys s.1)

DueFrom-before :
    (due : ℕ → ℕ) (b t at : ℕ) (xs : List ℕ)
    → DueFrom due b xs
    → b ≤ at
    → due t ≡ at
    → DueFrom due b (before due at xs ++ t ∷ from due at xs)
DueFrom-before due b t at [] d le e = (omega arith, tt)
DueFrom-before due b t at (x ∷ xs) d le e = elim (Bool-cases (ltb (due x) at)) [
  | inl p ↦ rw p (d.0, DueFrom-before due b t at xs d.1 le e)
  | inr p ↦ rw p (omega arith, d)
]

-- Inserting a task behind those due before it keeps the list sorted.
pub Sorted-insert :
    (due : ℕ → ℕ) (t at : ℕ) (xs : List ℕ)
    → Sorted due xs
    → due t ≡ at
    → Sorted due (before due at xs ++ t ∷ from due at xs)
Sorted-insert due t at [] s e = (tt, tt)
Sorted-insert due t at (x ∷ xs) s e = elim (Bool-cases (ltb (due x) at)) [
  | inl p ↦
      rw p
        (DueFrom-before due (due x) t at xs s.0 (ground arith) e, Sorted-insert due t at xs s.1 e)
  | inr p ↦
      let le : due t ≤ due x = ground arith in
      rw p ((le, DueFrom-weaken due (due t) (due x) xs le s.0), s)
]

-- Where a task goes depends on the due times of the tasks of the list alone.
pub before-agree :
    (due due' : ℕ → ℕ) (at : ℕ) (xs : List ℕ)
    → ((x : ℕ) → has x xs ≡ true → due' x ≡ due x)
    → (before due' at xs ≡ before due at xs) × (from due' at xs ≡ from due at xs)
before-agree due due' at [] same = (refl, refl)
before-agree due due' at (x ∷ xs) same =
    ground
      (arith, same x (ground arith), before-agree due due' at xs (λ y i. same y (ground arith)))

pub length-insert : (t : ℕ) (xs ys : List ℕ) → length (xs ++ t ∷ ys) ≡ suc (length (xs ++ ys))
length-insert t [] ys = refl
length-insert t (x ∷ xs) ys = ap suc (length-insert t xs ys)
