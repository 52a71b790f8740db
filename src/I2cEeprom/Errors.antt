-- ===== src/I2cEeprom/Errors.antt =====
-- The errors of src/i2c_eeprom/eeprom.c: addresses outside the memory, and a bus that fails.
use picore.Base.{
  ℕ, zero, suc, ◌+◌, ◌≤◌, ◌<◌, ◌≡◌, refl, arith, true, false, some, List, [], length, ltb, take,
}
use picore.Error.{Error, inval, is_ok}
use picore.I2cEeprom.{
  Bus, Chip, Eeprom, Locals, chip_size, is_outside, read, write, write_retry, write_loop,
  chunk_size, prepare, addr_size,
}
use picore.I2cEeprom.Stored.{chip_size_le}

outside :
    (chip : Chip) (addr size : ℕ)
    → addr < 65536
    → size < 4294901760
    → chip_size chip < addr + size
    → is_outside chip addr size ≡ true
outside chip addr size small short past = ground (arith, chip_size_le chip)

-- A read or a write that would pass the end of the memory, at a 16-bit address and of a size that
-- does not make their sum wrap round, is refused, and nothing is sent on the bus.
read-write-outside :
    {W : Type 0} (bus : Bus W) (e : Eeprom) (l : Locals) (addr : ℕ) (bytes : List ℕ) (w : W)
    → addr < 65536
    → length bytes < 4294901760
    → chip_size e.chip < addr + length bytes
    → (read bus e addr (length bytes) w ≡ (inval, [], w))
      × (write bus e l addr bytes w ≡ some (inval, w))
unfolding read write
read-write-outside bus e l addr bytes w small short past =
    let out = outside e.chip addr (length bytes) small short past in
    rw (out, read, write) (refl, refl)

module _ {W : Type 0} (bus : Bus W) (count : W → ℕ) where
  -- A bus on which every write fails; `count` is the number of writes attempted.
  pub record Fails : Type 0 where
    pub refused :
        (device : ℕ) (message : List ℕ) (w : W)
        → let (err, w') = bus.bus_write device message w in
          (is_ok err ≡ false) × (count w' ≡ suc (count w))
    pub waited : (n : ℕ) (w : W) → count (bus.busy_wait_ms n w) ≡ count w

  -- The call ends with an error after `n` attempts.
  abbrev pub FailsAfter : ℕ → W → Error × W → Type 0
  FailsAfter n w (err, w') = (is_ok err ≡ false) × (count w' ≡ count w + n)

  write_retry-FailsAfter :
      Fails
      → (left device : ℕ) (message : List ℕ) (w : W)
      → FailsAfter (suc left) w (write_retry bus left device message w)
  unfolding write_retry
  write_retry-FailsAfter law zero device message w =
      let (err, c) = law.refused device message w in (err, omega (arith, c))
  write_retry-FailsAfter law (suc left) device message w =
      let (err, c) = law.refused device message w in
      let w1 = (bus.bus_write device message w).1 in
      let c' = law.waited 1 w1 in
      let (err', c2) = write_retry-FailsAfter law left device message (bus.busy_wait_ms 1 w1) in
      rw err (err', omega (arith, c, c', c2))

  -- On a bus where every write fails, a write of at least one byte within the memory returns an
  -- error, after 128 attempts.
  pub write-FailsAfter :
      Fails
      → (e : Eeprom) (l : Locals) (addr : ℕ) (bytes : List ℕ) (w : W) → 0 < length bytes
      → addr + length bytes ≤ chip_size e.chip
      → (r : Error × W) × (write bus e l addr bytes w ≡ some r) × FailsAfter 128 w r
  unfolding write write_loop
  write-FailsAfter law e l addr bytes w pos fits =
      let inside : is_outside e.chip addr (length bytes) ≡ false =
        ground (arith, fits, pos, chip_size_le e.chip) in
      let more : ltb 0 (length bytes) ≡ true = ground (arith, pos) in
      let l1 = prepare e addr bytes 0 l in
      let message = take (chunk_size e.chip addr (length bytes) 0 + addr_size e.chip) l1.buf in
      let fails = write_retry-FailsAfter law 127 l1.device message w in
      (
        write_retry bus 127 l1.device message w,
        rw (inside, write, more, write_loop, fails.0, fails.0) refl,
        fails,
      )
