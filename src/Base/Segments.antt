-- ===== src/Base/Segments.antt =====
-- An array whose beginning is known in two parts: reads and writes in the second one.
use Prim.Native.Nat.{ℕ, zero, suc, ◌+◌, ◌<◌}
use mathlib.Core.Path.{◌≡◌, refl, sym, ap, ◌∙◌}
use mathlib.Core.List.{List, [], ◌∷◌, ◌++◌}
use native.Mathlib.Omega.{arith}
use picore.Base.Lists.{length, get_or, set, take}

module _ {ℓ} {A : Type ℓ} where
  pub take-set_within :
      (k : ℕ) (xs : List A) (i : ℕ) (v : A) → take k (set xs i v) ≡ set (take k xs) i v
  take-set_within zero xs i v = refl
  take-set_within (suc k) [] i v = refl
  take-set_within (suc k) (x ∷ xs) zero v = refl
  take-set_within (suc k) (x ∷ xs) (suc i) v = ap (λ l. x ∷ l) (take-set_within k xs i v)

  set-append :
      (ys zs : List A) (i : ℕ) (v : A) → set (ys ++ zs) (length ys + i) v ≡ ys ++ set zs i v
  set-append [] zs i v = ap (λ k. set zs k v) (omega arith)
  set-append (y ∷ ys) zs i v =
      let next : suc (length ys) + i ≡ suc (length ys + i) = omega arith in
      ap (λ k. set (y ∷ (ys ++ zs)) k v) next ∙ ap (λ l. y ∷ l) (set-append ys zs i v)

  get_or-append :
      (ys zs : List A) (i : ℕ) (d : A) → get_or (ys ++ zs) (length ys + i) d ≡ get_or zs i d
  get_or-append [] zs i d = ap (λ k. get_or zs k d) (omega arith)
  get_or-append (y ∷ ys) zs i d =
      let next : suc (length ys) + i ≡ suc (length ys + i) = omega arith in
      ap (λ k. get_or (y ∷ (ys ++ zs)) k d) next ∙ get_or-append ys zs i d

  pub get_or-take :
      (k : ℕ) (xs : List A) (i : ℕ) (d : A) → i < k → get_or (take k xs) i d ≡ get_or xs i d
  get_or-take zero xs i d lt = absurd (omega arith)
  get_or-take (suc k) [] i d lt = refl
  get_or-take (suc k) (x ∷ xs) zero d lt = refl
  get_or-take (suc k) (x ∷ xs) (suc i) d lt = get_or-take k xs i d (omega arith)

  module _ (xs ys zs : List A) (k i : ℕ) (split : take (length ys + k) xs ≡ ys ++ zs) where
    pub take-set_segment :
        (v : A) → take (length ys + k) (set xs (length ys + i) v) ≡ ys ++ set zs i v
    take-set_segment v =
        take-set_within (length ys + k) xs (length ys + i) v
        ∙ ap (λ l. set l (length ys + i) v) split
        ∙ set-append ys zs i v

    pub get_or-segment : (d : A) → i < k → get_or xs (length ys + i) d ≡ get_or zs i d
    get_or-segment d lt =
        sym (get_or-take (length ys + k) xs (length ys + i) d (omega arith))
        ∙ ap (λ l. get_or l (length ys + i) d) split
        ∙ get_or-append ys zs i d
