-- ===== src/I2sMasterOut/Samples.antt =====
-- What the setters of src/i2s_master_out/include/pr/i2s_master_out.h leave in the buffer.
use picore.Base.{
  ℕ, suc, ◌+◌, ◌≤◌, ◌≡◌, refl, ap, ◌∙◌, arith, true, Option, none, some, List, [], ◌∷◌, ltb, length,
  blit, set as list_set,
}
use picore.I2sMasterOut.{Strip, set_loop, set_many}

abbrev filled : Strip → ℕ → List ℕ → Strip
filled s offset values = record s { dirty = true; pixel_data = blit s.pixel_data offset values }

set_loop-filled :
    (s : Strip) (offset : ℕ) (values : List ℕ)
    → s.dirty ≡ true
    → offset + length values ≤ s.pixel_count
    → set_loop s offset values ≡ some (filled s offset values)
unfolding set_loop
set_loop-filled s offset [] d le = ap (λ b. some (record s { dirty = b })) d
set_loop-filled s offset (value ∷ values) d le =
    let inside : ltb offset s.pixel_count ≡ true = ground (arith, le) in
    let s' : Strip = record s { dirty = true; pixel_data = list_set s.pixel_data offset value } in
    let next : suc offset ≡ offset + 1 = omega arith in
    rw (inside, set_loop) (set_loop-filled s' (suc offset) values refl (omega arith))
    ∙ ap (λ k. some (record s { dirty = true; pixel_data = blit s'.pixel_data k values })) next

set_loop-first :
    (s : Strip) (offset value : ℕ) (values : List ℕ)
    → offset + suc (length values) ≤ s.pixel_count
    → set_loop s offset (value ∷ values) ≡ some (filled s offset (value ∷ values))
unfolding set_loop
set_loop-first s offset value values le =
    let inside : ltb offset s.pixel_count ≡ true = ground (arith, le) in
    let s' : Strip = record s { dirty = true; pixel_data = list_set s.pixel_data offset value } in
    let next : suc offset ≡ offset + 1 = omega arith in
    rw (inside, set_loop) (set_loop-filled s' (suc offset) values refl (omega arith))
    ∙ ap (λ k. some (record s { dirty = true; pixel_data = blit s'.pixel_data k values })) next

module _ {W : Type 0} (refresh : Strip → W → W) where
  abbrev refreshed : W → Option Strip → Option (Strip × W)
  refreshed w result = elim result [ none ↦ none | some s ↦ some (s, refresh s w) ]

  -- Samples that fit are stored at their places, and the transfer is asked for once.
  set_many-filled :
      (s : Strip) (offset value : ℕ) (values : List ℕ) (w : W)
      → offset + suc (length values) ≤ s.pixel_count
      → set_many refresh s offset (value ∷ values) w
        ≡ some (filled s offset (value ∷ values), refresh (filled s offset (value ∷ values)) w)
  unfolding set_many
  set_many-filled s offset value values w le =
      ap (refreshed w) (set_loop-first s offset value values le)
