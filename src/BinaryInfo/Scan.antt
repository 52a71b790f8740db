-- ===== src/BinaryInfo/Scan.antt =====
-- The table of src/binary_info_reader/bi_reader.c read from front to back, without the search's state.
use picore.Base.{
  ℕ, zero, suc, ◌+◌, ◌*◌, ◌<◌, ◌≡◌, ◌==◌, refl, sym, ap, ◌∙◌, arith, Bool, true, false, ◌&&◌, ◌-◌,
  ◌⊎◌, inl, inr, Bool-cases, Option, none, some, Option-cases, if◌then◌else◌,
}
use mathlib.Core.Option.{some-injective, none-ne-some, some-ne-none}
use picore.BinaryInfo.{Entry}

module _ (entry_at : ℕ → Option Entry) (type_no tag : ℕ) where
  abbrev pub wanted : Entry → Bool
  wanted c = (c.type_no == type_no) && (c.tag == tag)

  -- The first entry of a type and a tag in `n` places from `a` on, and the number of places after it.
  abbrev pub scan : ℕ → ℕ → Option (Entry × ℕ)
  scan zero a = none
  scan (suc n) a = elim (entry_at a) [
    | none ↦ scan n (a + 4)
    | some c ↦ if wanted c then some (c, n) else scan n (a + 4)
  ]

  -- The value of the first entry of a type, a tag and an identifier in `n` places from `a` on, and the
  -- number of places after it.
  abbrev pub lookup : ℕ → ℕ → ℕ → Option (ℕ × ℕ)
  lookup id zero a = none
  lookup id (suc n) a = elim (entry_at a) [
    | none ↦ lookup id n (a + 4)
    | some c ↦ if wanted c && (c.id == id) then some (c.value, n) else lookup id n (a + 4)
  ]

  -- A place without an entry of the type and the tag adds nothing to either result.
  pub scan-skip :
      (n a : ℕ) (id : ℕ)
      → (entry_at a ≡ none) ⊎ ((c : Entry) × (entry_at a ≡ some c) × (wanted c ≡ false))
      → (scan (suc n) a ≡ scan n (a + 4)) × (lookup id (suc n) a ≡ lookup id n (a + 4))
  scan-skip n a id (inl null) = rw (null, scan, lookup) (refl, refl)
  scan-skip n a id (inr (c, here, other)) = rw (here, scan, lookup, other) (refl, refl)

  pub scan-hit :
      (n a id : ℕ) (c : Entry)
      → entry_at a ≡ some c
      → wanted c ≡ true
      → (scan (suc n) a ≡ some (c, n))
        × (lookup id (suc n) a ≡ (if c.id == id then some (c.value, n) else lookup id n (a + 4)))
  scan-hit n a id c here hit = rw (here, scan, lookup, hit) (refl, refl)

  pub place :
      (a : ℕ)
      → ((entry_at a ≡ none) ⊎ ((c : Entry) × (entry_at a ≡ some c) × (wanted c ≡ false)))
        ⊎ ((c : Entry) × (entry_at a ≡ some c) × (wanted c ≡ true))
  place a = elim (Option-cases (entry_at a)) [
    | inl null ↦ inl (inl null)
    | inr (c, here) ↦ elim (Bool-cases (wanted c)) [
      | inl hit ↦ inr (c, here, hit)
      | inr other ↦ inl (inr (c, here, other))
    ]
  ]

  pub scan-none : (id n a : ℕ) → scan n a ≡ none → lookup id n a ≡ none
  scan-none id zero a e = refl
  scan-none id (suc n) a e = elim (place a) [
    | inl skip ↦ let (s, l) = scan-skip n a id skip in l ∙ scan-none id n (a + 4) (sym s ∙ e)
    | inr (c, here, hit) ↦ absurd (some-ne-none (c, n) (sym (scan-hit n a id c here hit).0 ∙ e))
  ]

  pub scan-some :
      (id n a : ℕ) (c : Entry) (k : ℕ)
      → scan n a ≡ some (c, k)
      → (k < n)
        × (lookup id n a
            ≡ (if c.id == id then some (c.value, k) else lookup id k (a + (n - k) * 4)))
  scan-some id zero a c k e = absurd (none-ne-some (c, k) e)
  scan-some id (suc n) a c k e = elim (place a) [
    | inl skip ↦
        let (s, l) = scan-skip n a id skip in
        let (lt, rest) = scan-some id n (a + 4) c k (sym s ∙ e) in
        let at : a + 4 + (n - k) * 4 ≡ a + (suc n - k) * 4 = omega (arith, lt) in
        (
          omega (arith, lt),
          l ∙ rest ∙ ap (λ b. if c.id == id then some (c.value, k) else lookup id k b) at,
        )
    | inr (c', here, hit) ↦
        let (s, l) = scan-hit n a id c' here hit in
        let same : (c', n) ≡ (c, k) = some-injective _ _ (sym s ∙ e) in
        let count : n ≡ k = ap (λ p. p.1) same in
        let at : a + 4 ≡ a + (suc n - k) * 4 = omega (arith, count) in
        (
          omega (arith, count),
          l
              ∙ ap
                  (λ (p : Entry × ℕ).
                    if p.0.id == id then some (p.0.value, p.1) else lookup id p.1 (a + 4))
                  same
              ∙ ap (λ b. if c.id == id then some (c.value, k) else lookup id k b) at,
        )
  ]
