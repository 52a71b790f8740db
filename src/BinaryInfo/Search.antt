-- ===== src/BinaryInfo/Search.antt =====
-- What src/binary_info_reader/bi_reader.c's search finds.
use picore.Base.{
  ℕ, zero, suc, ◌+◌, ◌*◌, ◌<◌, ◌≡◌, ◌==◌, refl, sym, ap, ◌∙◌, arith, Bool, true, false, ltb, ◌-◌,
  ◌⊎◌, inl, inr, Bool-cases, Option, none, some, Option-cases, if◌then◌else◌, add32,
}
use picore.BinaryInfo.Scan.{wanted, scan, lookup, scan-skip, scan-hit, place, scan-none, scan-some}
use picore.BinaryInfo.{Descriptor, Entry, next, get, find_loop, id_loop, find_string}

module _ (entry_at : ℕ → Option Entry) (type_no tag : ℕ) where
  -- What a search that ends at `end` returns for what the scan finds.
  abbrev scanned : ℕ → Option (Entry × ℕ) → Option Entry × ℕ
  scanned end none = (none, 0)
  scanned end (some (c, k)) = (some c, end - k * 4)

  module _ (desc : Descriptor) (small : desc.end < 4294967292) where
    past : (a : ℕ) → ltb a desc.end ≡ false → (next desc a ≡ 0) × (get entry_at desc a ≡ none)
    past a out = elim (Bool-cases (a == 0)) [
      | inl null ↦ rw null (refl, refl)
      | inr there ↦ rw (there, out) (refl, refl)
    ]

    within :
        (a : ℕ)
        → (a == 0) ≡ false
        → ltb a desc.end ≡ true
        → (next desc a ≡ add32 a 4) × (get entry_at desc a ≡ entry_at a)
    within a there inside = rw (there, inside) (refl, refl)

    -- One round, for what the state, the table and the next state are.
    abbrev body : ℕ → Bool → Option Entry → ℕ → Option (Option Entry × ℕ)
    body fuel ended c state' =
        let rest = find_loop entry_at fuel desc type_no tag state' in
        if ended then some (none, 0) else (elim c [
          | none ↦ rest
          | some e ↦ if wanted entry_at type_no tag e then some (some e, state') else rest
        ])

    round :
        (fuel a : ℕ) {ended : Bool} {c : Option Entry} {state' : ℕ}
        → (a == 0) ≡ ended
        → get entry_at desc a ≡ c
        → next desc a ≡ state'
        → find_loop entry_at (suc fuel) desc type_no tag a ≡ body fuel ended c state'
    unfolding find_loop
    round fuel a e0 e1 e2 = λ i. body fuel (e0 i) (e1 i) (e2 i)

    body-hit :
        (fuel : ℕ) (c : Entry) (state' : ℕ)
        → wanted entry_at type_no tag c ≡ true
        → body fuel false (some c) state' ≡ some (some c, state')
    body-hit fuel c state' hit = rw hit refl

    body-other :
        (fuel : ℕ) (c : Entry) (state' : ℕ)
        → wanted entry_at type_no tag c ≡ false
        → body fuel false (some c) state' ≡ find_loop entry_at fuel desc type_no tag state'
    body-other fuel c state' other = rw other refl

    skipped :
        (fuel n a : ℕ)
        → (a == 0) ≡ false
        → get entry_at desc a ≡ entry_at a
        → next desc a ≡ a + 4
        → (entry_at a ≡ none)
          ⊎ ((c : Entry) × (entry_at a ≡ some c) × (wanted entry_at type_no tag c ≡ false))
        → find_loop entry_at (suc fuel) desc type_no tag (a + 4)
          ≡ some (scanned desc.end (scan entry_at type_no tag n (a + 4)))
        → find_loop entry_at (suc (suc fuel)) desc type_no tag a
          ≡ some (scanned desc.end (scan entry_at type_no tag (suc n) a))
    skipped fuel n a there at step (inl null) rest =
        round (suc fuel) a there (at ∙ null) step
        ∙ rest
        ∙ ap (λ r. some (scanned desc.end r))
            (sym (scan-skip entry_at type_no tag n a 0 (inl null)).0)
    skipped fuel n a there at step (inr (c, here, other)) rest =
        round (suc fuel) a there (at ∙ here) step
        ∙ body-other (suc fuel) c (a + 4) other
        ∙ rest
        ∙ ap (λ r. some (scanned desc.end r))
            (sym (scan-skip entry_at type_no tag n a 0 (inr (c, here, other))).0)

    find_loop-scan :
        (n fuel a : ℕ)
        → 0 < a
        → desc.end ≡ a + n * 4
        → n + 1 < fuel
        → find_loop entry_at fuel desc type_no tag a
          ≡ some (scanned desc.end (scan entry_at type_no tag n a))
    unfolding find_loop
    find_loop-scan n zero a pos e lt = absurd (omega arith)
    find_loop-scan n (suc zero) a pos e lt = absurd (omega arith)
    find_loop-scan zero (suc (suc fuel)) a pos e lt =
        let (after, null) = past a (ground (arith, e)) in
        let there : (a == 0) ≡ false = ground (arith, pos) in round (suc fuel) a there null after
    find_loop-scan (suc n) (suc (suc fuel)) a pos e lt =
        let there : (a == 0) ≡ false = ground (arith, pos) in
        let (after, at) = within a there (ground (arith, e, pos)) in
        let step : next desc a ≡ a + 4 = after ∙ omega (arith, e, small) in
        let rest =
          find_loop-scan n (suc fuel) (a + 4) (omega arith) (omega (arith, e)) (omega arith) in
        elim (place entry_at type_no tag a) [
          | inl skip ↦ skipped fuel n a there at step skip rest
          | inr (c, here, hit) ↦
              let left : a + 4 ≡ desc.end - n * 4 = omega (arith, e) in
              round (suc fuel) a there (at ∙ here) step
              ∙ body-hit (suc fuel) c (a + 4) hit
              ∙ ap (λ b. some (some c, b)) left
              ∙ ap (λ r. some (scanned desc.end r))
                  (sym (scan-hit entry_at type_no tag n a 0 c here hit).0)
        ]

    -- What a search returns for what `lookup` finds: the value, and the state that is stored.
    abbrev pub valued : Option (ℕ × ℕ) → Option ℕ × ℕ
    valued none = (none, 0)
    valued (some (value, k)) = (some value, desc.end - k * 4)

    -- What a round does with the entry found.
    abbrev id_body : ℕ → ℕ → ℕ → Option (Option Entry × ℕ) → Option (Option ℕ × ℕ)
    id_body rounds fuel id result = elim result [
      | none ↦ none
      | some (found, state') ↦ elim found [
        | none ↦ some (none, state')
        | some bi ↦
            let rest = id_loop entry_at rounds fuel desc state' type_no tag id in
            if bi.id == id
            then some (some bi.value, state')
            else (if state' == 0 then some (none, state') else rest)
      ]
    ]

    id_round :
        (rounds fuel id a : ℕ)
        → (a == 0) ≡ false
        → id_loop entry_at (suc rounds) fuel desc a type_no tag id
          ≡ id_body rounds fuel id (find_loop entry_at fuel desc type_no tag a)
    unfolding id_loop
    id_round rounds fuel id a there =
        ap
          (λ z.
            id_body rounds fuel id
              (find_loop entry_at fuel desc type_no tag (if z then desc.start else a)))
          there

    if-valued :
        (b : Bool) (value k : ℕ) (rest : Option (ℕ × ℕ))
        → (if b then (some value, desc.end - k * 4) else valued rest)
          ≡ valued (if b then some (value, k) else rest)
    if-valued true value k rest = refl
    if-valued false value k rest = refl

    id_body-hit :
        (rounds fuel id : ℕ) (c : Entry) (state' : ℕ) (rest : Option ℕ × ℕ)
        → (state' == 0) ≡ false
        → id_loop entry_at rounds fuel desc state' type_no tag id ≡ some rest
        → id_body rounds fuel id (some (some c, state'))
          ≡ some (if c.id == id then (some c.value, state') else rest)
    id_body-hit rounds fuel id c state' rest there e = elim (Bool-cases (c.id == id)) [
      | inl same ↦ rw same refl
      | inr other ↦ rw (other, there) e
    ]

    -- The rounds of a search, given enough of them and of fuel, return what `lookup` finds from the state on.
    id_loop-lookup :
        (rounds n fuel id a : ℕ)
        → 0 < a
        → desc.end ≡ a + n * 4
        → n < rounds
        → n + 1 < fuel
        → id_loop entry_at rounds fuel desc a type_no tag id
          ≡ some (valued (lookup entry_at type_no tag id n a))
    id_loop-lookup zero n fuel id a pos e lt enough = absurd (omega arith)
    id_loop-lookup (suc rounds) n fuel id a pos e lt enough =
        let there : (a == 0) ≡ false = ground (arith, pos) in
        let result = find_loop-scan n fuel a pos e enough in
        elim (Option-cases (scan entry_at type_no tag n a)) [
          | inl nothing ↦
              id_round rounds fuel id a there
              ∙ ap (id_body rounds fuel id) (result ∙ ap (λ r. some (scanned desc.end r)) nothing)
              ∙ ap (λ r. some (valued r)) (sym (scan-none entry_at type_no tag id n a nothing))
          | inr ((c, k), hit) ↦
              let (below, value) = scan-some entry_at type_no tag id n a c k hit in
              let at : desc.end - k * 4 ≡ a + (n - k) * 4 = omega (arith, e, below) in
              let further : 0 < desc.end - k * 4 = omega (arith, e, below, pos) in
              let on : (desc.end - k * 4 == 0) ≡ false = ground (arith, further) in
              let rest =
                id_loop-lookup rounds k fuel id (desc.end - k * 4) further (omega (arith, e, below))
                  (omega (arith, lt, below)) (omega (arith, enough, below)) in
              id_round rounds fuel id a there
              ∙ ap (id_body rounds fuel id) (result ∙ ap (λ r. some (scanned desc.end r)) hit)
              ∙ id_body-hit rounds fuel id c (desc.end - k * 4)
                  (valued (lookup entry_at type_no tag id k (desc.end - k * 4))) on rest
              ∙ ap some (
                  if-valued (c.id == id) c.value k
                    (lookup entry_at type_no tag id k (desc.end - k * 4)))
              ∙ ap
                  (λ b. some (
                    valued (
                      if c.id == id
                      then some (c.value, k)
                      else lookup entry_at type_no tag id k b)))
                  at
              ∙ ap (λ r. some (valued r)) (sym value)
        ]

    -- With fuel for two rounds more than there are places from the state on, or from the start of the
    -- table for the state 0, a search of a table of entries of four bytes that ends below 2 ^ 32 - 4
    -- returns the value of the first entry there of the type, the tag and the identifier, and stores
    -- the place after it as the state; it returns nothing and stores 0 if there is none.
    pub find_string-lookup :
        (n fuel id state : ℕ)
        → let from = if state == 0 then desc.start else state in
          0 < from
          → desc.end ≡ from + n * 4
          → n + 1 < fuel
          → find_string entry_at fuel desc state type_no tag id
            ≡ some (valued (lookup entry_at type_no tag id n from))
    unfolding id_loop
    find_string-lookup n zero id state pos e enough = absurd (omega arith)
    find_string-lookup n (suc fuel) id state pos e enough =
        let from = if state == 0 then desc.start else state in
        let there : (from == 0) ≡ false = ground (arith, pos) in
        sym (id_round fuel (suc fuel) id from there)
        ∙ id_loop-lookup (suc fuel) n (suc fuel) id from pos e (omega arith) enough
