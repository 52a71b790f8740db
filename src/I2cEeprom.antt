-- ===== src/I2cEeprom.antt =====
-- src/i2c_eeprom/eeprom.c: reads and chunked writes of two EEPROMs on an I2C bus. The functions of
-- the bus are parameters, on a state `W`. `size` is the length of the data.
pub mod Chunks
pub mod Stored
pub mod Written
pub mod Errors
mod Tests
use picore.Base.{
  ℕ, zero, suc, ◌+◌, ◌-◌, ◌/◌, ◌%◌, ◌==◌, Bool, true, false, ◌||◌, Option, none, some, List, [],
  ◌∷◌, ◌++◌, if◌then◌else◌, ltb, length, take, drop, bit_or, blit, add32, u8, u16,
}
use picore.Error.{Error, ok, inval, is_ok}

-- `enum pr_i2c_eeprom_type`, for the table of functions that it selects.
pub data Chip : Type 0 where
  c24lc08 c24aa64 : Chip

-- `EEPROM_…_SIZE`, `EEPROM_…_ADDR_SIZE` and `EEPROM_…_PAGE_SIZE`
abbrev pub chip_size : Chip → ℕ
chip_size c24lc08 = 1024
chip_size c24aa64 = 8192

abbrev pub addr_size : Chip → ℕ
addr_size c24lc08 = 1
addr_size c24aa64 = 2

abbrev pub page_size : Chip → ℕ
page_size c24lc08 = 16
page_size c24aa64 = 32

-- The bus address for an address in the memory, and the bytes that send the latter.
abbrev pub device_saddr : Chip → ℕ → ℕ → ℕ
device_saddr c24lc08 saddr addr = u8 (bit_or saddr (addr / 256 % 4))
device_saddr c24aa64 saddr addr = saddr

abbrev pub pointer : Chip → ℕ → List ℕ
pointer c24lc08 addr = addr % 256 ∷ []
pointer c24aa64 addr = addr / 256 % 32 ∷ addr % 256 ∷ []

-- `struct pr_i2c_eeprom`, less the bus; `chip` stands for the table of functions.
pub record Eeprom : Type 0 where
  pub saddr : ℕ
  pub chip : Chip

-- `pr_i2c_eeprom_init`: the error, and what it leaves of a structure that held `before`.
abbrev pub init : Option Eeprom → ℕ → ℕ → Error × Option Eeprom
init before saddr zero = (ok, some (record { saddr = saddr; chip = c24lc08 }))
init before saddr (suc zero) = (ok, some (record { saddr = saddr; chip = c24aa64 }))
init before saddr (suc (suc n)) = (inval, before)

-- `addr > SIZE || addr + size > SIZE`
abbrev pub is_outside : Chip → ℕ → ℕ → Bool
is_outside chip addr size = ltb (chip_size chip) addr || ltb (chip_size chip) (add32 addr size)

-- The bytes that a write sends at once: `chuck_size` before the end of the data limits it, and after.
abbrev pub step_size : Chip → ℕ → ℕ
step_size chip addr =
    if addr % page_size chip == 0 then 16 else page_size chip - addr % page_size chip

abbrev pub chunk_size : Chip → ℕ → ℕ → ℕ → ℕ
chunk_size chip addr size offset =
    if ltb (size - offset) (step_size chip addr) then u16 (size - offset) else step_size chip addr

-- The variables `saddr` and `buf` of a write, indeterminate before the first chunk.
pub record Locals : Type 0 where
  pub device : ℕ
  pub buf : List ℕ

-- The variables for the chunk at `offset`.
abbrev pub prepare : Eeprom → ℕ → List ℕ → ℕ → Locals → Locals
prepare e addr bytes offset l = record {
  device = device_saddr e.chip e.saddr (addr + offset);
  buf = blit l.buf 0 (
      pointer e.chip (addr + offset)
      ++ take (chunk_size e.chip addr (length bytes) offset) (drop offset bytes));
}

-- `pr_i2c_bus_write` and `pr_i2c_bus_write_read` on one bus, and the SDK's `busy_wait_ms`.
pub record Bus (W : Type 0) : Type 0 where
  pub bus_write : ℕ → List ℕ → W → Error × W
  pub bus_write_read : ℕ → List ℕ → ℕ → W → Error × List ℕ × W
  pub busy_wait_ms : ℕ → W → W

module _ {W : Type 0} (bus : Bus W) where
  open bus use {bus_write, bus_write_read, busy_wait_ms}

  unfoldable pub read : Eeprom → ℕ → ℕ → W → Error × List ℕ × W
  read e addr size w =
      if is_outside e.chip addr size
      then (inval, [], w)
      else bus_write_read (device_saddr e.chip e.saddr addr) (pointer e.chip addr) size w

  -- The attempts to send a chunk; `left` is `retry_count` after its decrement.
  unfoldable pub write_retry : ℕ → ℕ → List ℕ → W → Error × W
  write_retry zero device message w = bus_write device message w
  write_retry (suc left) device message w =
      let (err, w1) = bus_write device message w in
      let later = write_retry left device message (busy_wait_ms 1 w1) in
      if is_ok err then (err, w1) else later

  -- The loop over the chunks, on fuel.
  unfoldable pub write_loop : ℕ → Eeprom → ℕ → List ℕ → ℕ → Locals → W → Option (Error × Locals × W)
  write_loop zero e addr bytes offset l w = none
  write_loop (suc fuel) e addr bytes offset l w = elim (ltb offset (length bytes)) [
    | false ↦ some (ok, l, w)
    | true ↦
        let chunk = chunk_size e.chip addr (length bytes) offset in
        let l1 = prepare e addr bytes offset l in
        let (err, w1) = write_retry 127 l1.device (take (chunk + addr_size e.chip) l1.buf) w in
        let rest = write_loop fuel e addr bytes (u16 (offset + chunk)) l1 w1 in
        if is_ok err then rest else some (err, l1, w1)
  ]

  -- The attempts to read a byte after the last chunk; each stores what it read at `buf + 1`.
  unfoldable pub poll : ℕ → Chip → Locals → W → Error × W
  poll zero chip l w =
      let (err, bytes, w1) = bus_write_read l.device (take (addr_size chip) l.buf) 1 w in (err, w1)
  poll (suc left) chip l w =
      let (err, bytes, w1) = bus_write_read l.device (take (addr_size chip) l.buf) 1 w in
      let later = poll left chip (record l { buf = blit l.buf 1 bytes }) (busy_wait_ms 1 w1) in
      if is_ok err then (err, w1) else later

  -- What a write returns at its end: one function ignores the error of the last attempt.
  abbrev pub finish : Chip → Locals → W → Error × W
  finish c24lc08 l w = (ok, (poll 127 c24lc08 l w).1)
  finish c24aa64 l w = poll 127 c24aa64 l w

  unfoldable pub write : Eeprom → Locals → ℕ → List ℕ → W → Option (Error × W)
  write e l addr bytes w =
      if is_outside e.chip addr (length bytes)
      then some (inval, w)
      else (elim (write_loop (suc (length bytes)) e addr bytes 0 l w) [
        | none ↦ none
        | some (err, l1, w1) ↦ if is_ok err then some (finish e.chip l1 w1) else some (err, w1)
      ])
