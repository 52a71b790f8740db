-- ===== src/Modbus/Reads.antt =====
-- The requests of src/modbus/modbus.c that read coils, inputs and registers.
use picore.Base.{
  ℕ, zero, suc, ◌+◌, ◌*◌, ◌/◌, ◌%◌, Bool, true, false, Option, none, some, if◌then◌else◌, ltb,
  get_or, set, blit, replicate, bit_or, shl, u8, u16,
}
use picore.Endian.{be16_na_write}
use picore.Modbus.{ModbusError, success, illegal_function, server_device_failure, succeeds, Bus}

-- `bus->buffer[bus->ptr++] = value`
abbrev pub append : Bus → ℕ → Bus
append bus value = record bus {
  buffer = set bus.buffer bus.ptr (u8 value);
  ptr = u16 (bus.ptr + 1);
}

-- `if (value) bus->buffer[bus->ptr + off/8] |= 1 << (off % 8);`
abbrev pub mark : Bus → ℕ → Bool → Bus
mark bus off false = bus
mark bus off true =
    let i = bus.ptr + off / 8 in
    record bus { buffer = set bus.buffer i (u8 (bit_or (get_or bus.buffer i 0) (shl 1 (off % 8)))) }

module _ {W : Type 0} where
  -- The loop of `bus_req_coils_get_many`, for the last `n` of its coils.
  unfoldable pub coils_loop :
      (ℕ → W → ModbusError × Bool × W) → ℕ → ℕ → ℕ → Bus → W → ModbusError × Bus × W
  coils_loop getter addr zero off bus w = (success, bus, w)
  coils_loop getter addr (suc n) off bus w =
      let (err, value, w') = getter (u16 (addr + off)) w in
      elim (succeeds err) [
        | true ↦ coils_loop getter addr n (off + 1) (mark bus off value) w'
        | false ↦ (err, bus, w')
      ]

  -- `bus_req_coils_get_many`
  unfoldable pub coils_get_many :
      Option (ℕ → W → ModbusError × Bool × W) → ℕ → ℕ → Bus → W → ModbusError × Bus × W
  coils_get_many getter addr count bus w =
      let rsp_bytes = (count + 7) / 8 in
      if ltb 250 rsp_bytes then (server_device_failure, bus, w) else (elim getter [
        | none ↦ (illegal_function, bus, w)
        | some get ↦
            let bus1 = append bus rsp_bytes in
            let bus2 = record bus1 { buffer = blit bus1.buffer bus1.ptr (replicate rsp_bytes 0) } in
            let (err, bus3, w') = coils_loop get addr count 0 bus2 w in
            elim (succeeds err) [
              | true ↦ (success, record bus3 { ptr = u16 (bus3.ptr + rsp_bytes) }, w')
              | false ↦ (err, bus3, w')
            ]
      ])

  -- The loop of `bus_req_regs_get_many`, for the last `n` of its registers.
  unfoldable pub regs_loop :
      (ℕ → W → ModbusError × ℕ × W) → ℕ → ℕ → ℕ → Bus → W → ModbusError × Bus × W
  regs_loop getter addr zero off bus w = (success, bus, w)
  regs_loop getter addr (suc n) off bus w =
      let (err, value, w') = getter (u16 (addr + off)) w in
      let bus1 = record bus {
        buffer = be16_na_write bus.buffer bus.ptr (u16 value);
        ptr = u16 (bus.ptr + 2);
      } in
      elim (succeeds err) [
        | true ↦ regs_loop getter addr n (off + 1) bus1 w'
        | false ↦ (err, bus, w')
      ]

  -- `bus_req_regs_get_many`
  unfoldable pub regs_get_many :
      Option (ℕ → W → ModbusError × ℕ × W) → ℕ → ℕ → Bus → W → ModbusError × Bus × W
  regs_get_many getter addr count bus w =
      let rsp_bytes = count * 2 in
      if ltb 250 rsp_bytes then (server_device_failure, bus, w) else (elim getter [
        | none ↦ (illegal_function, bus, w)
        | some get ↦ regs_loop get addr count 0 (append bus rsp_bytes) w
      ])
