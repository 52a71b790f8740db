-- ===== src/I2sMasterOut.antt =====
-- src/i2s_master_out/include/pr/i2s_master_out.h: the inline functions that change samples. No source
-- file defines `pr_i2s_master_out_refresh`, which is a parameter and acts on a state `W`.
mod Samples
mod Tests
use picore.Base.{
  ℕ, suc, Bool, true, Option, none, some, List, [], ◌∷◌, if◌then◌else◌, ltb, set as list_set,
}

-- `struct pr_i2s_master_out_strip`, less the PIO and the queue of its tasks.
pub record Strip : Type 0 where
  pub sm : ℕ
  pub refresh_task : ℕ
  pub done_task : ℕ
  pub pixel_data : List ℕ
  pub pixel_count : ℕ
  pub offset : ℕ
  pub refreshing : Bool
  pub dirty : Bool
  pub inv : Bool

-- `none` is a failed assertion.
abbrev pub set_norefresh : Strip → ℕ → ℕ → Option Strip
set_norefresh s offset value =
    if ltb offset s.pixel_count
    then some (record s { dirty = true; pixel_data = list_set s.pixel_data offset value })
    else none

unfoldable pub set_loop : Strip → ℕ → List ℕ → Option Strip
set_loop s offset [] = some s
set_loop s offset (value ∷ values) = elim (set_norefresh s offset value) [
  | none ↦ none
  | some s' ↦ set_loop s' (suc offset) values
]

module _ {W : Type 0} (refresh : Strip → W → W) where
  unfoldable pub set : Strip → ℕ → ℕ → W → Option (Strip × W)
  set s offset value w = elim (set_norefresh s offset value) [
    | none ↦ none
    | some s' ↦ some (s', refresh s' w)
  ]

  unfoldable pub set_many : Strip → ℕ → List ℕ → W → Option (Strip × W)
  set_many s offset values w = elim (set_loop s offset values) [
    | none ↦ none
    | some s' ↦ some (s', refresh s' w)
  ]
