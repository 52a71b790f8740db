-- ===== src/Task/Chain.antt =====
-- Singly linked lists in memory: the handles that a chain of links leads through, and what one
-- splice or one unlink does to it.
use picore.Base.{
  ℕ, ◌≡◌, refl, ◌∙◌, Bool, true, false, ◌||◌, ◌==◌, Option, none, some, List, [], ◌∷◌, ◌++◌, arith,
}
use picore.Task.{Link, head, after}

abbrev pub has : ℕ → List ℕ → Bool
has t [] = false
has t (x ∷ xs) = (t == x) || has t xs

abbrev pub Distinct : List ℕ → Type 0
Distinct [] = Unit
Distinct (x ∷ xs) = (has x xs ≡ false) × Distinct xs

-- Whether a link is the `next` field of a task of the list.
abbrev pub within : Link → List ℕ → Bool
within head xs = false
within (after t) xs = has t xs

-- From `cur` the links of `lk` lead through `xs` to NULL.
abbrev pub Chain : (Link → Option ℕ) → Link → List ℕ → Type 0
Chain lk cur [] = lk cur ≡ none
Chain lk cur (x ∷ xs) = (lk cur ≡ some x) × Chain lk (after x) xs

-- The link behind the last task of a list that starts at `cur`.
abbrev pub end_link : Link → List ℕ → Link
end_link cur [] = cur
end_link cur (x ∷ xs) = end_link (after x) xs

-- Two link functions that agree at every link but `a` and `b`.
abbrev pub AgreeBut : Link → Link → (Link → Option ℕ) → (Link → Option ℕ) → Type 0
AgreeBut a b lk lk' = (l : Link) → ¬ (l ≡ a) → ¬ (l ≡ b) → lk' l ≡ lk l

pub after_ne : (x y : ℕ) → (x == y) ≡ false → ¬ (after x ≡ after y)
after_ne x y e p = ground (arith, p)

-- A task of a list is not the owner of a link outside it.
within-ne :
    (l : Link) (y : ℕ) (xs : List ℕ) → within l xs ≡ false → has y xs ≡ true → ¬ (after y ≡ l)
within-ne head y xs out i p = ground (arith, p)
within-ne (after z) y xs out i p = ground (arith, p)

ne-after : (l : Link) (x : ℕ) (xs : List ℕ) → within l (x ∷ xs) ≡ false → ¬ (l ≡ after x)
ne-after head x xs out p = ground (arith, p)
ne-after (after z) x xs out p = ground (arith, p)

within-tail : (l : Link) (x : ℕ) (xs : List ℕ) → within l (x ∷ xs) ≡ false → within l xs ≡ false
within-tail head x xs out = refl
within-tail (after z) x xs out = ground arith

pub has-append_left : (y : ℕ) (xs ys : List ℕ) → has y (xs ++ ys) ≡ false → has y xs ≡ false
has-append_left y [] ys h = refl
has-append_left y (x ∷ xs) ys h = ground (arith, has-append_left y xs ys)

within-append_left : (l : Link) (xs ys : List ℕ) → within l (xs ++ ys) ≡ false → within l xs ≡ false
within-append_left head xs ys h = refl
within-append_left (after z) xs ys h = has-append_left z xs ys h

ne-of_within :
    (l : Link) (t : ℕ) (xs ys : List ℕ) → within l (xs ++ t ∷ ys) ≡ false → ¬ (l ≡ after t)
ne-of_within l t [] ys out = ne-after l t ys out
ne-of_within l t (x ∷ xs) ys out = ne-of_within l t xs ys (within-tail l x (xs ++ t ∷ ys) out)

-- A chain seen through other links, and from another start, that lead the same way.
pub frame :
    (lk lk' : Link → Option ℕ) (cur cur' : Link) (xs : List ℕ)
    → Chain lk cur xs
    → lk' cur' ≡ lk cur
    → ((y : ℕ) → has y xs ≡ true → lk' (after y) ≡ lk (after y))
    → Chain lk' cur' xs
frame lk lk' cur cur' [] c e h = e ∙ c
frame lk lk' cur cur' (x ∷ xs) c e h = (
  e ∙ c.0,
  frame lk lk' (after x) (after x) xs c.1 (h x (ground arith)) (λ y p. h y (ground arith)),
)

-- The end link of a list is its start, or the `next` field of one of its tasks.
pub end_link-ne :
    (l cur : Link) (xs : List ℕ) → ¬ (l ≡ cur) → within l xs ≡ false → ¬ (l ≡ end_link cur xs)
end_link-ne l cur [] ne out = ne
end_link-ne l cur (x ∷ xs) ne out =
    end_link-ne l (after x) xs (ne-after l x xs out) (within-tail l x xs out)

pub Chain-insert :
    (lk lk' : Link → Option ℕ) (cur : Link) (xs ys : List ℕ) (t : ℕ)
    → Chain lk cur (xs ++ ys)
    → Distinct (xs ++ ys)
    → within cur (xs ++ ys) ≡ false
    → has t (xs ++ ys) ≡ false
    → ¬ (cur ≡ after t)
    → lk' (end_link cur xs) ≡ some t
    → lk' (after t) ≡ lk (end_link cur xs)
    → AgreeBut (end_link cur xs) (after t) lk lk'
    → Chain lk' cur (xs ++ t ∷ ys)
Chain-insert lk lk' cur [] ys t c d out new ne here next same = (
  here,
  frame lk lk' cur (after t) ys c next
      λ y i. same (after y) (within-ne cur y ys out i) (within-ne (after t) y ys new i),
)
Chain-insert lk lk' cur (x ∷ xs) ys t c d out new ne here next same = (
  same cur
        (end_link-ne cur (after x) xs (ne-after cur x (xs ++ ys) out)
          (within-append_left cur xs ys (within-tail cur x (xs ++ ys) out)))
        ne
      ∙ c.0,
  Chain-insert lk lk' (after x) xs ys t c.1 d.1 d.0 (ground arith) (after_ne x t (ground arith))
      here next same,
)

pub Chain-remove :
    (lk lk' : Link → Option ℕ) (cur : Link) (xs ys : List ℕ) (t : ℕ)
    → Chain lk cur (xs ++ t ∷ ys)
    → Distinct (xs ++ t ∷ ys)
    → within cur (xs ++ t ∷ ys) ≡ false
    → lk' (end_link cur xs) ≡ lk (after t)
    → AgreeBut (end_link cur xs) (after t) lk lk'
    → Chain lk' cur (xs ++ ys)
Chain-remove lk lk' cur [] ys t c d out here same = frame lk lk' (after t) cur ys c.1 here λ y i.
    same (after y) (within-ne cur y ys (within-tail cur t ys out) i)
      (within-ne (after t) y ys d.0 i)
Chain-remove lk lk' cur (x ∷ xs) ys t c d out here same = (
  same cur
        (end_link-ne cur (after x) xs (ne-after cur x (xs ++ t ∷ ys) out)
          (within-append_left cur xs (t ∷ ys) (within-tail cur x (xs ++ t ∷ ys) out)))
        (ne-of_within cur t xs ys (within-tail cur x (xs ++ t ∷ ys) out))
      ∙ c.0,
  Chain-remove lk lk' (after x) xs ys t c.1 d.1 d.0 here same,
)
