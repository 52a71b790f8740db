-- ===== src/Modbus/Writes.antt =====
-- The requests of src/modbus/modbus.c that write coils and registers; the cases of `bus_req_handle`
-- up to its labels `error` and `respond`.
use picore.Base.{
  ℕ, zero, suc, ◌+◌, ◌*◌, ◌/◌, ◌%◌, ◌==◌, Bool, true, false, not, Option, none, some, if◌then◌else◌,
  get_or, shr, u16,
}
use picore.Endian.{be16_na_read, be16_na_write}
use picore.Modbus.{ModbusError, success, illegal_function, illegal_data_value, succeeds, Bus}

-- Two 16-bit values behind the two bytes already there.
abbrev pub echo : Bus → ℕ → ℕ → Bus
echo bus a b = record bus {
  buffer = be16_na_write (be16_na_write bus.buffer bus.ptr a) (bus.ptr + 2) b;
  ptr = u16 (bus.ptr + 4);
}

module _ {W : Type 0} where
  -- `if (set) err = set(…); else err = MODBUS_ILLEGAL_FUNCTION;`
  abbrev pub call_set :
      {A : Type 0} → Option (ℕ → A → W → ModbusError × W) → ℕ → A → W → ModbusError × W
  call_set none address value w = (illegal_function, w)
  call_set (some set) address value w = set address value w

  unfoldable pub write_single_register :
      Option (ℕ → ℕ → W → ModbusError × W) → Bus → W → ModbusError × Bus × W
  write_single_register set bus w =
      let address = be16_na_read bus.buffer 2 in
      let value = be16_na_read bus.buffer 4 in
      let (err, w') = call_set set address value w in
      (err, if succeeds err then echo bus address value else bus, w')

  unfoldable pub write_single_coil :
      Option (ℕ → Bool → W → ModbusError × W) → Bus → W → ModbusError × Bus × W
  write_single_coil set bus w =
      let address = be16_na_read bus.buffer 2 in
      let value = not (be16_na_read bus.buffer 4 == 0) in
      let (err, w') = call_set set address value w in
      (err, if succeeds err then echo bus address (if value then 0xff00 else 0) else bus, w')

  -- The loop of a multiple write: the `n` values from `off` on, read by `value`.
  unfoldable pub set_loop :
      {A : Type 0}
      → Option (ℕ → A → W → ModbusError × W)
      → (ℕ → A)
      → ℕ
      → ℕ
      → ℕ
      → W
      → ModbusError × W
  set_loop set value address zero off w = (success, w)
  set_loop set value address (suc n) off w =
      let (err, w') = call_set set (u16 (address + off)) (value off) w in
      elim (succeeds err) [ true ↦ set_loop set value address n (off + 1) w' | false ↦ (err, w') ]

  unfoldable pub write_multiple :
      {A : Type 0}
      → Option (ℕ → A → W → ModbusError × W)
      → (ℕ → A)
      → Bool
      → Bus
      → ℕ
      → W
      → ModbusError × Bus × W
  write_multiple set value counted bus size w =
      let address = be16_na_read bus.buffer 2 in
      let count = be16_na_read bus.buffer 4 in
      let byte_count = get_or bus.buffer 6 0 in
      if not counted
      then (illegal_data_value, bus, w)
      else (if not (byte_count + 9 == size)
          then (illegal_data_value, bus, w)
          else (let (err, w') = set_loop set value address count 0 w in
              (err, if succeeds err then echo bus address count else bus, w')))

  unfoldable pub write_multiple_registers :
      Option (ℕ → ℕ → W → ModbusError × W) → Bus → ℕ → W → ModbusError × Bus × W
  write_multiple_registers set bus size w =
      write_multiple set (λ off. be16_na_read bus.buffer (7 + off * 2))
        (be16_na_read bus.buffer 4 == get_or bus.buffer 6 0 / 2) bus size w

  unfoldable pub write_multiple_coils :
      Option (ℕ → Bool → W → ModbusError × W) → Bus → ℕ → W → ModbusError × Bus × W
  write_multiple_coils set bus size w =
      write_multiple set (λ off. shr (get_or bus.buffer (7 + off / 8) 0) (off % 8) % 2 == 1)
        ((be16_na_read bus.buffer 4 + 7) / 8 == get_or bus.buffer 6 0) bus size w
