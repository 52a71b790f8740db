-- ===== src/Modbus.antt =====
-- src/modbus: the Modbus RTU server. A request is answered in the bus's own buffer. `W` is the state
-- that the application's handlers and the scheduler act on.
pub mod Crc
pub mod Spec
pub mod Reads
pub mod Writes
pub mod DevId
pub mod Request
pub mod Frame
pub mod Worker
use picore.Base.{ℕ, Bool, true, false, Option, List}
use picore.Fifo.{Fifo}

-- `enum modbus_error`
pub data ModbusError : Type 0 where
  success illegal_function illegal_data_address illegal_data_value server_device_failure :
      ModbusError

abbrev pub code : ModbusError → ℕ
code success = 0
code illegal_function = 1
code illegal_data_address = 2
code illegal_data_value = 3
code server_device_failure = 4

-- `!err`
abbrev pub succeeds : ModbusError → Bool
succeeds success = true
succeeds illegal_function = false
succeeds illegal_data_address = false
succeeds illegal_data_value = false
succeeds server_device_failure = false

-- `struct pr_modbus_handler`; `none` is NULL. A getter returns its error and the value stored.
pub record Handler (W : Type 0) : Type 0 where
  pub coil_get : Option (ℕ → W → ModbusError × Bool × W)
  pub discrete_input_get : Option (ℕ → W → ModbusError × Bool × W)
  pub coil_set : Option (ℕ → Bool → W → ModbusError × W)
  pub holding_register_get : Option (ℕ → W → ModbusError × ℕ × W)
  pub input_register_get : Option (ℕ → W → ModbusError × ℕ × W)
  pub holding_register_set : Option (ℕ → ℕ → W → ModbusError × W)
  pub devid : Option (ℕ → W → Option (List ℕ) × W)

-- `struct pr_modbus` without its handler; the tasks are handles.
pub record Bus : Type 0 where
  pub rx : Fifo
  pub tx : Fifo
  pub worker : ℕ
  pub clear : ℕ
  pub addr : ℕ
  pub buffer : List ℕ
  pub ptr : ℕ
  pub rsp_size : ℕ

-- `sizeof(bus->buffer)`
abbrev pub buffer_size : ℕ
buffer_size = 256
