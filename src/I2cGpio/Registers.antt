-- ===== src/I2cGpio/Registers.antt =====
-- The registers of the expander that src/i2c_gpio/i2c_gpio.c drives, against the caches.
use picore.Base.{
  ℕ, ◌+◌, ◌-◌, ◌/◌, ◌%◌, ◌<◌, ◌==◌, ==_iff, ◌≡◌, ◌≢◌, refl, ap, subst, ◌∙◌, arith, inl, inr,
  Bool-cases, List, [], ◌∷◌, bit_and, bit_or, bit_xor, if◌then◌else◌, digit, digit-mod,
  digit-merged, bit_and-high_byte, bit_xor-equal, bit_xor-above, bit_xor_bound, u16,
}
use native.Mathlib.Nat.{mod-eq_of_lt}
use picore.Error.{Error, ok}
use picore.I2cGpio.{Gpio, merge, pca9575_update, pca9575_set, pca9575_oe}

-- The cache has the digits of the value where the mask has a 1, and the old ones elsewhere.
abbrev pub Masked : ℕ → ℕ → ℕ → ℕ → Type 0
Masked old mask value cache =
    (i : ℕ) → i < 16 → digit i cache ≡ (if digit i mask == 1 then digit i value else digit i old)

merge-Masked :
    (old mask value : ℕ) → mask < 4294967296 → Masked old mask value (u16 (merge old mask value))
merge-Masked old mask value small i lt =
    digit-mod i 16 (merge old mask value) lt
    ∙ digit-merged i 32 old mask value (omega arith) (omega arith)

module _ {W : Type 0} (bus_write : ℕ → List ℕ → W → Error × W)
    (bus_write_read : ℕ → List ℕ → ℕ → W → Error × List ℕ × W) (saddr : ℕ) (regs : W → ℕ → ℕ) where
  -- A PCA9575 that answers at `saddr`: a message of a register and a byte stores the byte; the highest bit of the
  -- first byte asks for the next byte to go to the next register.
  pub record IsExpander : Type 0 where
    pub one :
        (reg value : ℕ) (w : W)
        → reg < 128
        → value < 256
        → let (err, w') = bus_write saddr (reg ∷ value ∷ []) w in
          (err ≡ ok) × (regs w' reg ≡ value) × ((r : ℕ) → r ≢ reg → regs w' r ≡ regs w r)
    pub two :
        (reg low high : ℕ) (w : W)
        → reg + 1 < 128
        → low < 256
        → high < 256
        → let (err, w') = bus_write saddr (bit_or 128 reg ∷ low ∷ high ∷ []) w in
          (err ≡ ok)
          × (regs w' reg ≡ low)
          × (regs w' (reg + 1) ≡ high)
          × ((r : ℕ) → r ≢ reg → r ≢ reg + 1 → regs w' r ≡ regs w r)

  -- The pair of registers from `reg` on holds a 16-bit number.
  abbrev pub Holds : ℕ → ℕ → W → Type 0
  Holds reg v w = (regs w reg ≡ v % 256) × (regs w (reg + 1) ≡ v / 256)

  abbrev Updated : ℕ → ℕ → W → Error × W → Type 0
  Updated reg v w (err, w') =
      (err ≡ ok) × Holds reg v w' × ((r : ℕ) → r ≢ reg → r ≢ reg + 1 → regs w' r ≡ regs w r)

  pca9575_update-Updated :
      IsExpander
      → (g : Gpio) (reg changed v0 v : ℕ) (w : W) → g.saddr ≡ saddr
      → reg + 1 < 128
      → changed < 65536
      → v < 65536
      → (changed ≡ 0 → v0 ≡ v)
      → (changed < 256 → v0 / 256 ≡ v / 256)
      → Holds reg v0 w
      → Updated reg v w (pca9575_update bus_write bus_write_read g reg changed v w)
  pca9575_update-Updated law g reg changed v0 v w at fits small16 small none_changed low_changed
        (lo, hi) =
      elim (Bool-cases (changed == 0)) [
        | inl same ↦ rw same (
          refl,
          subst (λ k. Holds reg k w) (none_changed ((==_iff _ _).0 same)) (lo, hi),
          λ r p q. refl,
        )
        | inr more ↦ elim (Bool-cases (bit_and changed 65280 == 0)) [
          | inl low ↦
              let (o, stored, kept) = law.one reg (v % 256) w (omega arith) (omega arith) in
              rw (more, low, at)
                (
                  o,
                  (
                    stored,
                    kept (reg + 1) (omega arith)
                        ∙ hi
                        ∙ low_changed
                            (omega (arith, bit_and-high_byte changed small16, (==_iff _ _).0 low)),
                  ),
                  λ r p q. kept r p,
                )
          | inr high ↦
              let (o, stored, stored', kept) =
                law.two reg (v % 256) (v / 256 % 256) w fits (omega arith) (omega arith) in
              rw (more, high, at) (o, (stored, stored' ∙ omega arith), kept)
        ]
      ]

  -- The registers agree with the caches: 10 and 11 with the outputs, 8 and 9 with what is not enabled.
  abbrev pub Matches : Gpio → W → Type 0
  Matches g w =
      (g.saddr ≡ saddr)
      × (g.set_cache < 65536)
      × (g.oe_cache < 65536)
      × Holds 10 g.set_cache w
      × Holds 8 (65535 - g.oe_cache) w

  -- On an expander that answers and whose registers agree with the caches, setting outputs or their
  -- enables with a mask of 32 bits returns no error and gives the cache, at each of its 16 bits, the bit
  -- of the value where the mask has a 1, and leaves its other bits; and the registers agree with the
  -- caches after it.
  pub set-oe-Matches :
      IsExpander
      → (g : Gpio) (mask value : ℕ) (w : W) → mask < 4294967296
      → Matches g w
      → (let (err, g', w') = pca9575_set bus_write bus_write_read g mask value w in
          (err ≡ ok) × Masked g.set_cache mask value g'.set_cache × Matches g' w')
        × (let (err, g', w') = pca9575_oe bus_write bus_write_read g mask value w in
            (err ≡ ok) × Masked g.oe_cache mask value g'.oe_cache × Matches g' w')
  unfolding pca9575_set pca9575_oe
  set-oe-Matches law g mask value w wide (at, small, small', out, en) =
      let cut : u16 g.set_cache ≡ g.set_cache = mod-eq_of_lt small in
      let cut' : u16 g.oe_cache ≡ g.oe_cache = mod-eq_of_lt small' in
      let set = u16 (merge g.set_cache mask value) in
      let oe = u16 (merge g.oe_cache mask value) in
      let (o, held, kept) =
        pca9575_update-Updated law g 10 (bit_xor g.set_cache set) g.set_cache set w at (omega arith)
          (bit_xor_bound 16 g.set_cache set small (omega arith)) (omega arith)
          (bit_xor-equal g.set_cache set) (bit_xor-above 8 g.set_cache set) out in
      let (o', held', kept') =
        pca9575_update-Updated law g 8 (bit_xor g.oe_cache oe) (65535 - g.oe_cache) (65535 - oe) w
          at (omega arith) (bit_xor_bound 16 g.oe_cache oe small' (omega arith)) (omega arith)
          (λ same. ap (λ k. 65535 - k) (bit_xor-equal g.oe_cache oe same))
          (λ low. omega (arith, bit_xor-above 8 g.oe_cache oe low)) en in
      rw (cut, cut')
        (
          (
            o,
            merge-Masked g.set_cache mask value wide,
            (
              at,
              omega arith,
              small',
              held,
              (
                kept 8 (omega arith) (omega arith) ∙ en.0,
                kept 9 (omega arith) (omega arith) ∙ en.1,
              ),
            ),
          ),
          (
            o',
            merge-Masked g.oe_cache mask value wide,
            (
              at,
              small,
              omega arith,
              (
                kept' 10 (omega arith) (omega arith) ∙ out.0,
                kept' 11 (omega arith) (omega arith) ∙ out.1,
              ),
              held',
            ),
          ),
        )
