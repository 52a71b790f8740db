-- ===== src/SpiMaster/Select.antt =====
-- The chip select in src/spi_master/spi_master.c's transfers to a device.
use picore.Base.{
  ℕ, ◌==◌, ◌%◌, ◌≡◌, Bool, true, not, Option, none, some, List, [], ◌∷◌, ◌++◌, if◌then◌else◌,
}
use picore.SpiMaster.{Sdk, Device, deselect}

module _ {W : Type 0} (sdk : Sdk W) (levels : W → List Bool) where
  -- The levels that the pin `csn` has been given, in order. The driver of a push-pull pin sets its level; one
  -- of the open-drain kind makes it an output, which is then low, or an input, which is pulled up. The calls
  -- that configure the bus and exchange bytes leave the pin alone.
  pub record IsLine (csn : ℕ) : Type 0 where
    pub put : (level : Bool) (w : W) → levels (sdk.gpio_put csn level w) ≡ levels w ++ (level ∷ [])
    pub dir :
        (out : Bool) (w : W) → levels (sdk.gpio_set_dir csn out w) ≡ levels w ++ (not out ∷ [])
    pub format :
        (inst : ℕ) (cpol cpha : Bool) (w : W)
        → levels (sdk.spi_set_format inst cpol cpha w) ≡ levels w
    pub baudrate : (inst rate : ℕ) (w : W) → levels (sdk.spi_set_baudrate inst rate w) ≡ levels w
    pub write_read :
        (inst : ℕ) (xs : List ℕ) (w : W)
        → levels (sdk.spi_write_read_blocking inst xs w).1 ≡ levels w
    pub write :
        (inst : ℕ) (xs : List ℕ) (w : W) → levels (sdk.spi_write_blocking inst xs w) ≡ levels w
    pub read : (inst fill n : ℕ) (w : W) → levels (sdk.spi_read_blocking inst fill n w).1 ≡ levels w

  -- The call returns, and the pin is as it was.
  abbrev pub Leaves : W → Option (List ℕ × W) → Type 0
  Leaves w call = (rx : List ℕ) × (w' : W) × (call ≡ some (rx, w')) × (levels w' ≡ levels w)

  -- What is done after the exchange, with and without the release.
  abbrev ended : Device → Bool → Option (List ℕ × W) → Option (List ℕ × W)
  ended dev releases call = elim call [
    | none ↦ none
    | some (rx, w') ↦ some (rx, if releases then deselect sdk dev w' else w')
  ]

  -- The level that a transfer with these flags ends on: high where it releases the device.
  abbrev pub release : ℕ → List Bool
  release flags = if flags % 2 == 0 then true ∷ [] else []
