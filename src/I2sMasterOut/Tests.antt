-- ===== src/I2sMasterOut/Tests.antt =====
-- Samples stored in a buffer of four.
use picore.Base.{ℕ, ◌+◌, ◌≡◌, refl, true, false, none, some, [], ◌∷◌}
use picore.I2sMasterOut.{Strip, set_many, set_loop}

abbrev silence : Strip
silence = record {
  sm = 0;
  refresh_task = 1;
  done_task = 2;
  pixel_data = 0 ∷ 0 ∷ 0 ∷ 0 ∷ [];
  pixel_count = 4;
  offset = 0;
  refreshing = false;
  dirty = false;
  inv = false;
}

-- The state counts the requests for a transfer.
two_samples :
    set_many (λ s w. w + 1) silence 1 (7 ∷ 8 ∷ []) 0
    ≡ some (record silence { pixel_data = 0 ∷ 7 ∷ 8 ∷ 0 ∷ []; dirty = true }, 1)
unfolding set_many set_loop
two_samples = refl

too_many : set_many {W = ℕ} (λ s w. w + 1) silence 3 (7 ∷ 8 ∷ []) 0 ≡ none
unfolding set_many set_loop
too_many = refl
