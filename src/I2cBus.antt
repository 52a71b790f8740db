-- ===== src/I2cBus.antt =====
-- src/i2c_bus/i2c_bus.c: transfers on an I2C bus and the errors that they report. The SDK's
-- functions are parameters and act on a state `W`; sizes are below 2 ^ 31, where C's `int` holds
-- them.
pub mod Transfers
mod Tests
use picore.Base.{
  ℕ, ◌%◌, ◌==◌, Bool, true, false, not, Option, some, List, [], if◌then◌else◌, length, shr,
}
use picore.Error.{Error, ok, io, address, timeout, inval, is_ok}

-- What a blocking transfer of the SDK returns: a number of bytes, or a negative code.
pub data Returned : Type 0 where
  moved : ℕ → Returned
  generic timed_out negative : Returned

-- `instance_for_pin`: 0 is `i2c0`, 1 is `i2c1`.
abbrev pub instance_for_pin : ℕ → ℕ
instance_for_pin pin = shr pin 1 % 2

-- `pico_to_pr_err`
unfoldable pub pico_to_pr_err : Returned → ℕ → Error
pico_to_pr_err (moved n) count = if n == count then ok else io
pico_to_pr_err generic count = address
pico_to_pr_err timed_out count = timeout
pico_to_pr_err negative count = io

module _ {W : Type 0} (set_function : ℕ → W → W) (i2c_init : ℕ → ℕ → W → W) where
  -- `pr_i2c_bus_init`: the error and the instance that the bus has from then on.
  unfoldable pub init : Option ℕ → ℕ → ℕ → ℕ → W → Error × Option ℕ × W
  init bus sda scl rate w =
      if not (instance_for_pin sda == instance_for_pin scl) then (inval, bus, w) else (
        ok,
        some (instance_for_pin sda),
        i2c_init (instance_for_pin sda) rate (set_function scl (set_function sda w)),
      )

-- `saddr`, the data or the number of bytes to read, and `nostop`.
module _ {W : Type 0} (i2c_write_blocking : ℕ → List ℕ → Bool → W → Returned × W)
    (i2c_read_blocking : ℕ → ℕ → Bool → W → Returned × List ℕ × W) where
  unfoldable pub write : ℕ → List ℕ → W → Error × W
  write saddr bytes w =
      let (err, w') = i2c_write_blocking saddr bytes false w in
      (pico_to_pr_err err (length bytes), w')

  unfoldable pub read : ℕ → ℕ → W → Error × List ℕ × W
  read saddr size w =
      let (err, bytes, w') = i2c_read_blocking saddr size false w in
      (pico_to_pr_err err size, bytes, w')

  unfoldable pub write_read : ℕ → List ℕ → ℕ → W → Error × List ℕ × W
  write_read saddr wdata rsize w =
      let (err, w1) = i2c_write_blocking saddr wdata true w in
      let be = pico_to_pr_err err (length wdata) in
      let (err', bytes, w2) = i2c_read_blocking saddr rsize false w1 in
      if not (is_ok be) then (be, [], w1) else (pico_to_pr_err err' rsize, bytes, w2)
