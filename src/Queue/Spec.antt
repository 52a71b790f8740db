-- ===== src/Queue/Spec.antt =====
-- What src/queue/queue.c promises: a list of at most `bound` entries, oldest first.
use picore.Base.{ℕ, ◌==◌, Option, none, some, List, [], ◌∷◌, ◌++◌, if◌then◌else◌, length}
use picore.Error.{Error, ok, memory}

pub data Op : Type 0 where
  put : ℕ → Op
  get : Op

-- The code returned, and the entry if one is stored through the pointer.
abbrev pub Reply : Type 0
Reply = Error × Option ℕ

unfoldable pub append_bounded : ℕ → List ℕ → ℕ → Error × List ℕ
append_bounded bound xs value =
    if length xs == bound then (memory, xs) else (ok, xs ++ (value ∷ []))

unfoldable pub take_first : List ℕ → Error × Option ℕ × List ℕ
take_first [] = (memory, none, [])
take_first (x ∷ xs) = (ok, some x, xs)

unfoldable pub replies : ℕ → List ℕ → List Op → List Reply
unfolding append_bounded take_first
replies bound xs [] = []
replies bound xs (put value ∷ ops) =
    let (e, xs') = append_bounded bound xs value in (e, none) ∷ replies bound xs' ops
replies bound xs (get ∷ ops) = let (e, out, xs') = take_first xs in (e, out) ∷ replies bound xs' ops
