-- ===== src/I2cGpio.antt =====
-- src/i2c_gpio/i2c_gpio.c: I2C port expanders and the caches of their registers. `pr_i2c_bus_write`
-- and `pr_i2c_bus_write_read` on the expander's bus are parameters, on a state `W`.
pub mod Registers
mod Tests
use picore.Base.{
  ℕ, ◌+◌, ◌-◌, ◌*◌, ◌/◌, ◌%◌, ◌^◌, ◌==◌, Bool, List, [], ◌∷◌, if◌then◌else◌, bit_and, bit_or,
  bit_xor, get_or, shl, shr, u8, u16,
}
use picore.Error.{Error, ok, impl}

-- The table of functions: `pr_i2c_gpio_tca9534` or `pr_i2c_gpio_pca9575`.
pub data Vtable : Type 0 where
  tca9534 pca9575 : Vtable

-- `struct pr_i2c_gpio`, less the bus.
pub record Gpio : Type 0 where
  pub saddr : ℕ
  pub vtable : Vtable
  pub set_cache : ℕ
  pub oe_cache : ℕ
  pub pull_bias_cache : ℕ
  pub pull_en_cache : ℕ

-- `pr_i2c_gpio_init`
abbrev pub init : Vtable → ℕ → Error × Gpio
init vtable saddr = (
  ok,
  record {
    saddr = saddr;
    vtable = vtable;
    set_cache = 0;
    oe_cache = 0;
    pull_bias_cache = 0;
    pull_en_cache = 0;
  },
)

-- `(old & ~mask) | (value & mask)`, on 32 bits; the variable that it is stored in cuts it.
abbrev pub merge : ℕ → ℕ → ℕ → ℕ
merge old mask value = bit_or (bit_and old (4294967295 - mask)) (bit_and value mask)

-- `!!x`
abbrev pub truth : ℕ → ℕ
truth x = if x == 0 then 0 else 1

module _ {W : Type 0} (bus_write : ℕ → List ℕ → W → Error × W)
    (bus_write_read : ℕ → List ℕ → ℕ → W → Error × List ℕ × W) where
  abbrev pub tca9534_set : Gpio → ℕ → ℕ → W → Error × Gpio × W
  tca9534_set g mask value w =
      let set = u8 (merge (u8 g.set_cache) mask value) in
      let (err, w') = bus_write g.saddr (1 ∷ set ∷ []) w in (err, record g { set_cache = set }, w')

  abbrev pub tca9534_oe : Gpio → ℕ → ℕ → W → Error × Gpio × W
  tca9534_oe g mask value w =
      let oe = u8 (merge (u8 g.oe_cache) mask value) in
      let (err, w') = bus_write g.saddr (3 ∷ (255 - oe) ∷ []) w in
      (err, record g { oe_cache = oe }, w')

  abbrev pub tca9534_get : Gpio → W → Error × ℕ × W
  tca9534_get g w =
      let (err, rsp, w') = bus_write_read g.saddr (0 ∷ []) 1 w in (err, get_or rsp 0 0, w')

  abbrev pub pca9575_w8 : Gpio → ℕ → ℕ → W → Error × W
  pca9575_w8 g reg value w = bus_write g.saddr (reg ∷ u8 value ∷ []) w

  abbrev pub pca9575_w16 : Gpio → ℕ → ℕ → W → Error × W
  pca9575_w16 g reg value w =
      bus_write g.saddr (bit_or 128 reg ∷ value % 256 ∷ value / 256 % 256 ∷ []) w

  -- The writes of `pca9575_set` and `pca9575_oe` from register `reg` on, for the bits that changed.
  abbrev pub pca9575_update : Gpio → ℕ → ℕ → ℕ → W → Error × W
  pca9575_update g reg changed value w =
      if changed == 0
      then (ok, w)
      else (if bit_and changed 65280 == 0
          then pca9575_w8 g reg value w
          else (if bit_and changed 65280 == 0
              then pca9575_w8 g (reg + 1) (value / 256) w
              else pca9575_w16 g reg value w))

  unfoldable pub pca9575_set : Gpio → ℕ → ℕ → W → Error × Gpio × W
  pca9575_set g mask value w =
      let old_set = u16 g.set_cache in
      let set = u16 (merge old_set mask value) in
      let (err, w') = pca9575_update g 10 (bit_xor old_set set) set w in
      (err, record g { set_cache = set }, w')

  unfoldable pub pca9575_oe : Gpio → ℕ → ℕ → W → Error × Gpio × W
  pca9575_oe g mask value w =
      let old_oe = u16 g.oe_cache in
      let oe = u16 (merge old_oe mask value) in
      let (err, w') = pca9575_update g 8 (bit_xor old_oe oe) (65535 - oe) w in
      (err, record g { oe_cache = oe }, w')

  abbrev pub pca9575_get : Gpio → W → Error × ℕ × W
  pca9575_get g w =
      let (err, rsp, w') = bus_write_read g.saddr (128 ∷ []) 2 w in
      (err, bit_or (get_or rsp 0 0) (shl (get_or rsp 1 0) 8), w')

  abbrev pub pca9575_pull_en : Gpio → ℕ → ℕ → ℕ → W → Error × Gpio × W
  pca9575_pull_en g mask enable bias w =
      let pull = u16 (merge (u16 g.pull_bias_cache) mask bias) in
      let pull_en = u16 (merge (u16 g.pull_en_cache) mask enable) in
      let (err, w') =
        bus_write g.saddr
          (132
            ∷ truth (bit_and pull_en 255)
            ∷ truth (bit_and pull_en 65280)
            ∷ pull % 256
            ∷ pull / 256 % 256
            ∷ [])
          w in
      (err, record g { pull_bias_cache = pull; pull_en_cache = pull_en }, w')

  -- `pr_i2c_gpio_set`, `_oe`, `_pull_en` and `_get`: the function that the table has, if any.
  abbrev pub set : Gpio → ℕ → ℕ → W → Error × Gpio × W
  set g mask value w = elim g.vtable [
    | tca9534 ↦ tca9534_set g mask value w
    | pca9575 ↦ pca9575_set g mask value w
  ]

  abbrev pub oe : Gpio → ℕ → ℕ → W → Error × Gpio × W
  oe g mask value w = elim g.vtable [
    | tca9534 ↦ tca9534_oe g mask value w
    | pca9575 ↦ pca9575_oe g mask value w
  ]

  abbrev pub pull_en : Gpio → ℕ → ℕ → ℕ → W → Error × Gpio × W
  pull_en g mask enable bias w = elim g.vtable [
    | tca9534 ↦ (impl, g, w)
    | pca9575 ↦ pca9575_pull_en g mask enable bias w
  ]

  abbrev pub get : Gpio → W → Error × ℕ × W
  get g w = elim g.vtable [ tca9534 ↦ tca9534_get g w | pca9575 ↦ pca9575_get g w ]
