-- ===== src/Modbus/Request/Tests.antt =====
-- The theorems on the checksum and on the replies at concrete frames, and runs of src/modbus.
use picore.Base.{
  ℕ, Option, false, ◌+◌, ◌==◌, ◌≡◌, ◌↔◌, refl, arith, true, false, none, some, List, [], ◌∷◌, ◌++◌,
  replicate, take, if◌then◌else◌,
}
use picore.Fifo.{Fifo}
use picore.Modbus.{success, illegal_data_address, Handler, Bus}
use picore.Modbus.Crc.{crc_init, check_state, crc_update, serialize, insert1, insert_byte}
use picore.Modbus.Crc.Check.{crc_update-check}
use picore.Modbus.Request.{respond, serve, dispatch, answer, req_handle}
use picore.Endian.{be16_na_read, be16_na_write}
use picore.Modbus.Reads.{regs_get_many, regs_loop}
use picore.Modbus.Request.Endless.{answer_endless}
use picore.Fifo.Inv.{IsValid}
use picore.Modbus.Spec.{sealed, packed}
use picore.Modbus.Request.Sent.{answer-sealed}
use picore.Modbus.Request.Transmit.{Sending}
use picore.Modbus.Request.Identified.{answer-identity}
use picore.Modbus.Request.Delivered.{Line, Reach, req_handle-Sending}
use picore.Modbus.Request.Completed.{Finished, turns, req_handle-Finished}

-- The reading of ten registers from 0 on, by station 1.
abbrev request : List ℕ
request = 0x01 ∷ 0x03 ∷ 0x00 ∷ 0x00 ∷ 0x00 ∷ 0x0a ∷ []

request_crc : serialize (crc_update crc_init request) ≡ 0xc5 ∷ 0xcd ∷ []
unfolding insert1 insert_byte
request_crc = refl

crc_update-check_example :
    (crc_update crc_init (request ++ 0xc5 ∷ 0xcd ∷ []) ≡ check_state)
    ↔ ((0xc5 ∷ 0xcd ∷ []) ≡ serialize (crc_update crc_init request))
crc_update-check_example = crc_update-check request 0xc5 0xcd (omega arith) (omega arith)

-- Register `n` holds `n + 7`, and the address 100 is none; the state counts the reads.
abbrev handler : Handler ℕ
handler = record {
  coil_get = none;
  discrete_input_get = none;
  coil_set = none;
  holding_register_get =
      some (λ n w. if n == 100 then (illegal_data_address, 0, w) else (success, n + 7, w + 1));
  input_register_get = none;
  holding_register_set = none;
  devid = none;
}

abbrev empty : Fifo
empty = record {
  consumer = none;
  producer = none;
  buffer = [];
  size = 0;
  wptr = 0;
  rptr = 0;
  free = 0;
  used = 0;
}

abbrev bus_with : List ℕ → Bus
bus_with bytes = record {
  rx = empty;
  tx = empty;
  worker = 1;
  clear = 2;
  addr = 1;
  buffer = bytes ++ replicate 248 0;
  ptr = 8;
  rsp_size = 0;
}

-- Two registers from 0x10 on.
abbrev read_two : Bus
read_two = bus_with (0x01 ∷ 0x03 ∷ 0x00 ∷ 0x10 ∷ 0x00 ∷ 0x02 ∷ 0 ∷ 0 ∷ [])

-- The function 0x2b with the level 3.
abbrev identify : Bus
identify = bus_with (0x01 ∷ 0x2b ∷ 0x0e ∷ 0x03 ∷ 0x00 ∷ 0 ∷ 0 ∷ 0 ∷ [])

answer_endless_example : answer handler 1000 identify 7 0 ≡ none
answer_endless_example =
    answer_endless handler 1000 identify 7 0 refl refl refl refl refl (omega arith)

-- The registers 0x10 and 0x11, behind the address, the function and the number of bytes.
reply_two :
    (bus : Bus) × (answer handler 0 read_two 8 0 ≡ some (true, bus, 2))
    × (take bus.rsp_size bus.buffer ≡ 1 ∷ 3 ∷ 4 ∷ 0 ∷ 23 ∷ 0 ∷ 24 ∷ 74 ∷ 61 ∷ [])
unfolding answer dispatch serve regs_get_many regs_loop be16_na_read be16_na_write respond insert1
    insert_byte
reply_two = (_, refl, refl)

answer-sealed_example :
    (bus : Bus) × (answer handler 0 read_two 8 0 ≡ some (true, bus, 2))
    × (take bus.rsp_size bus.buffer ≡ sealed (1 ∷ 3 ∷ 4 ∷ 0 ∷ 23 ∷ 0 ∷ 24 ∷ []))
unfolding be16_na_read
answer-sealed_example =
    answer-sealed handler 0 read_two 8 0 refl (omega arith) (omega arith) refl (λ e. omega arith)

-- Eight coils from 0 on, of which those with an even number are on.
coils_packed :
    packed 2 (true ∷ false ∷ true ∷ false ∷ true ∷ false ∷ true ∷ false ∷ true ∷ []) ≡ 0x55 ∷ 1 ∷ []
coils_packed = refl

-- A transmit FIFO of four bytes, so that the reply of nine bytes takes several turns.
abbrev narrow : Fifo
narrow = record empty { buffer = replicate 4 0; size = 4; free = 4 }

narrow-IsValid : IsValid narrow 0 0
narrow-IsValid = omega arith

abbrev read_narrow : Bus
read_narrow = record read_two { tx = narrow }

abbrev count : Option ℕ → ℕ → ℕ
count task w = w + 1

req_handle-Sending_example :
    (bus : Bus) × (w : ℕ) × (req_handle count handler 0 read_narrow 8 0 ≡ some (bus, w))
    × ((t : Line ℕ)
        → Reach count (record { bus = bus; world = w; received = [] }) t
        → Sending [] (sealed (1 ∷ 3 ∷ 4 ∷ 0 ∷ 23 ∷ 0 ∷ 24 ∷ [])) t.received t.bus)
unfolding be16_na_read
req_handle-Sending_example =
    req_handle-Sending count handler 0 read_narrow 8 0 refl (omega arith) (omega arith) refl
      (λ e. omega arith) narrow-IsValid

req_handle-Finished_example :
    (bus : Bus) × (w : ℕ) × (req_handle count handler 0 read_narrow 8 0 ≡ some (bus, w))
    × ((t : Line ℕ)
        → Reach count (record { bus = bus; world = w; received = [] }) t
        → Finished count 3 [] (sealed (1 ∷ 3 ∷ 4 ∷ 0 ∷ 23 ∷ 0 ∷ 24 ∷ [])) (turns count 3 256 t))
unfolding be16_na_read
req_handle-Finished_example =
    req_handle-Finished count 3 handler 0 read_narrow 8 0 (omega arith) (omega arith) refl
      (omega arith) (omega arith) refl (λ e. omega arith) narrow-IsValid

-- The objects 0 and 2; the state counts the questions.
abbrev named : Handler ℕ
named = record handler {
  devid = some (λ i w. (
    if i == 0 then some (0x70 ∷ 0x72 ∷ []) else (if i == 2 then some (0x31 ∷ []) else none),
    w + 1,
  ));
}

-- The function 0x2b with the level 1.
abbrev identify_basic : Bus
identify_basic = bus_with (0x01 ∷ 0x2b ∷ 0x0e ∷ 0x01 ∷ 0x00 ∷ 0 ∷ 0 ∷ 0 ∷ [])

answer-identity_example :
    (bus : Bus) × (answer named 4 identify_basic 7 0 ≡ some (true, bus, 3))
    × (take bus.rsp_size bus.buffer
        ≡ sealed (1 ∷ 0x2b ∷ 0x0e ∷ 1 ∷ 0x83 ∷ 0 ∷ 0 ∷ 2 ∷ 0 ∷ 2 ∷ 0x70 ∷ 0x72 ∷ 2 ∷ 1 ∷ 0x31 ∷ []))
answer-identity_example =
    answer-identity named 4 identify_basic 7 2 0 refl refl refl refl refl (omega arith)
      (omega arith) (omega arith) (omega arith) (omega arith)
