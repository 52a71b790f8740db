-- ===== src/Modbus/Request.antt =====
-- `bus_req_handle` and `modbus_tx_try` of src/modbus/modbus.c.
pub mod Reply
pub mod Values
pub mod Stores
pub mod Coils
pub mod Cases
pub mod Sent
pub mod Answer
pub mod Transmit
pub mod Delivered
pub mod Completed
pub mod Identity
pub mod Identified
pub mod Endless
mod Tests
use picore.Base.{
  ℕ, ◌+◌, ◌==◌, Bool, true, false, not, Option, none, some, List, if◌then◌else◌, ltb, take, drop,
  get_or, set, blit, bit_or, sub32, u8, u16,
}
use picore.Endian.{be16_na_read}
use picore.Fifo as Fifo
use picore.Modbus.{
  ModbusError, success, illegal_function, succeeds, code, Handler, Bus, buffer_size,
}
use picore.Modbus.Crc.{crc_init, crc_update, finalize, serialize}
use picore.Modbus.Reads.{append, coils_get_many, regs_get_many}
use picore.Modbus.Writes.{
  write_single_register, write_single_coil, write_multiple_registers, write_multiple_coils,
}
use picore.Modbus.DevId.{put, device_identification}

-- `enum modbus_op`, the codes that are served.
abbrev pub read_coils : ℕ
read_coils = 1

abbrev pub read_discrete_inputs : ℕ
read_discrete_inputs = 2

abbrev pub read_holding_registers : ℕ
read_holding_registers = 3

abbrev pub read_input_registers : ℕ
read_input_registers = 4

abbrev pub write_coil : ℕ
write_coil = 5

abbrev pub write_register : ℕ
write_register = 6

abbrev pub write_coils : ℕ
write_coils = 15

abbrev pub write_registers : ℕ
write_registers = 16

abbrev pub read_device_identification : ℕ
read_device_identification = 43

-- The label `error`.
unfoldable pub report : ModbusError → Bus → Bus
report err bus =
    let bus1 = put (put bus 1 (bit_or (get_or bus.buffer 1 0) 0x80)) 2 (code err) in
    record bus1 { ptr = 3 }

-- The label `respond`, up to the call of `modbus_tx_try`; `none` is a store behind the end of the
-- buffer.
unfoldable pub respond : Bus → Option Bus
respond bus =
    let crc = crc_update crc_init (take bus.ptr bus.buffer) in
    if ltb buffer_size (bus.ptr + 2)
    then none
    else (some (record bus {
      buffer = blit bus.buffer bus.ptr (serialize (finalize crc));
      rsp_size = u16 (bus.ptr + 2);
      ptr = 0;
    }))

module _ {W : Type 0} where
  -- The cases of the `switch` but the device identification.
  unfoldable pub serve : Handler W → ℕ → Bus → ℕ → W → ModbusError × Bus × W
  serve handler func bus size w =
      let address = be16_na_read bus.buffer 2 in
      let count = be16_na_read bus.buffer 4 in
      if func == read_coils
      then coils_get_many handler.coil_get address count bus w
      else (if func == read_discrete_inputs
          then coils_get_many handler.discrete_input_get address count bus w
          else (if func == read_holding_registers
              then regs_get_many handler.holding_register_get address count bus w
              else (if func == read_input_registers
                  then regs_get_many handler.input_register_get address count bus w
                  else (if func == write_register
                      then write_single_register handler.holding_register_set bus w
                      else (if func == write_coil
                          then write_single_coil handler.coil_set bus w
                          else (if func == write_registers
                              then write_multiple_registers handler.holding_register_set bus size w
                              else (if func == write_coils
                                  then write_multiple_coils handler.coil_set bus size w
                                  else (illegal_function, bus, w))))))))

  -- The whole `switch`; `none` is that of the device identification.
  unfoldable pub dispatch : Handler W → ℕ → ℕ → Bus → ℕ → W → Option (ModbusError × Bus × W)
  dispatch handler fuel func bus size w =
      if func == read_device_identification
      then device_identification handler.devid fuel bus w
      else some (serve handler func bus size w)

  -- `bus_req_handle` up to the call of `modbus_tx_try`; the Boolean tells whether it is reached.
  unfoldable pub answer : Handler W → ℕ → Bus → ℕ → W → Option (Bool × Bus × W)
  answer handler fuel bus size w =
      let func = get_or bus.buffer 1 0 in
      let bus0 = record bus { ptr = 0; rsp_size = 0 } in
      if not (get_or bus.buffer 0 0 == bus.addr)
      then some (false, bus0, w)
      else (elim (dispatch handler fuel func (append (append bus0 bus.addr) func) size w) [
        | none ↦ none
        | some (err, bus1, w') ↦ elim (respond (if succeeds err then bus1 else report err bus1)) [
          | none ↦ none
          | some bus2 ↦ some (true, bus2, w')
        ]
      ])

  module _ (exec : Option ℕ → W → W) where
    -- `modbus_tx_try`
    unfoldable pub tx_try : Bus → W → Option (Bus × W)
    tx_try bus w =
        elim (Fifo.write exec bus.tx w (drop bus.ptr bus.buffer) (sub32 bus.rsp_size bus.ptr)) [
          | none ↦ none
          | some (tx_len, tx, w') ↦
              let ptr = u16 (bus.ptr + tx_len) in
              if ptr == bus.rsp_size
              then some (
                record bus { tx = tx; ptr = 0; rsp_size = 0 },
                if Fifo.is_empty bus.rx then w' else exec (some bus.worker) w',
              )
              else some (record bus { tx = tx; ptr = ptr }, w')
        ]

    -- `bus_req_handle`
    unfoldable pub req_handle : Handler W → ℕ → Bus → ℕ → W → Option (Bus × W)
    req_handle handler fuel bus size w = elim (answer handler fuel bus size w) [
      | none ↦ none
      | some (again, bus', w') ↦ if again then tx_try bus' w' else some (bus', w')
    ]
