-- ===== src/Modbus/Spec/Objects.antt =====
-- The objects of a device identification, and the bytes that list them.
use picore.Base.{ℕ, zero, suc, ◌+◌, Option, none, some, List, [], ◌∷◌, ◌++◌, length, take}
use picore.Modbus.DevId.{call_devid}

-- The texts of the `n` objects from `i` on that there are, at most 64 bytes of each.
module _ {W : Type 0} where
  abbrev pub objects : Option (ℕ → W → Option (List ℕ) × W) → ℕ → ℕ → W → List (ℕ × List ℕ) × W
  objects devid zero i w = ([], w)
  objects devid (suc n) i w =
      let (answer, w') = call_devid devid i w in
      let (rest, w'') = objects devid n (i + 1) w' in
      (elim answer [ none ↦ rest | some text ↦ (i, take 64 text) ∷ rest ], w'')

abbrev pub listing : List (ℕ × List ℕ) → List ℕ
listing [] = []
listing ((i, text) ∷ rest) = i ∷ length text ∷ (text ++ listing rest)
