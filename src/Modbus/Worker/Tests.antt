-- ===== src/Modbus/Worker/Tests.antt =====
-- The tasks of src/modbus at a concrete request.
use picore.Base.{
  zero, suc, ◌<◌, length, get_or, ℕ, ◌+◌, ◌≡◌, refl, arith, List, ◌⊎◌, true, false, Option, none,
  some, [], ◌∷◌, ◌++◌, if◌then◌else◌, ltb, replicate,
}
use picore.Fifo.{Fifo}
use picore.Modbus.Crc.{insert_byte, insert1}
use picore.Modbus.{success, Handler, Bus, buffer_size}
use picore.Modbus.Frame.{req_frame_len}
use picore.Modbus.Request.{req_handle}
use picore.Modbus.Request.Values.{written}
use picore.Modbus.Request.Transmit.{Sending}
use picore.Modbus.Request.Delivered.{Line, Reach, answer_frame}
use picore.Modbus.Worker.{req_try, on_work}
use picore.Modbus.Worker.Serve.{on_work-Sending}
use picore.Modbus.Worker.Safe.{Carries, req_try-Carries}
use picore.Modbus.Spec.{sealed}

get_or-replicate : (n i : ℕ) → let zeros : List ℕ = replicate n 0 in get_or zeros i 0 ≡ 0
get_or-replicate zero i = refl
get_or-replicate (suc n) zero = refl
get_or-replicate (suc n) (suc i) = get_or-replicate n i

abbrev handler : Handler ℕ
handler = record {
  coil_get = none;
  discrete_input_get = none;
  coil_set = none;
  holding_register_get = none;
  input_register_get = none;
  holding_register_set = none;
  devid = none;
}

abbrev empty : Fifo
empty = record {
  consumer = none;
  producer = none;
  buffer = [];
  size = 0;
  wptr = 0;
  rptr = 0;
  free = 0;
  used = 0;
}

-- The reading of ten registers, with its checksum, has arrived.
abbrev full : Bus
full = record {
  rx = empty;
  tx = empty;
  worker = 1;
  clear = 2;
  addr = 9;
  buffer = (1 ∷ 3 ∷ 0 ∷ 0 ∷ 0 ∷ 10 ∷ 0xc5 ∷ 0xcd ∷ []) ++ replicate 248 0;
  ptr = 8;
  rsp_size = 0;
}

abbrev exec : Option ℕ → ℕ → ℕ
exec task w = w

abbrev exec_in_ms : ℕ → ℕ → ℕ → ℕ
exec_in_ms task ms w = w

full_bytes : (i : ℕ) → get_or full.buffer i 0 < 256
full_bytes zero = omega arith
full_bytes (suc zero) = omega arith
full_bytes (suc (suc zero)) = omega arith
full_bytes (suc (suc (suc zero))) = omega arith
full_bytes (suc (suc (suc (suc zero)))) = omega arith
full_bytes (suc (suc (suc (suc (suc zero))))) = omega arith
full_bytes (suc (suc (suc (suc (suc (suc zero)))))) = omega arith
full_bytes (suc (suc (suc (suc (suc (suc (suc zero))))))) = omega arith
full_bytes (suc (suc (suc (suc (suc (suc (suc (suc i)))))))) = omega (arith, get_or-replicate 248 i)

req_try-Carries_example :
    ((body : List ℕ) × Carries full body
      × (req_try exec exec_in_ms handler 0 full 5
          ≡ (elim (req_handle exec handler 0 full (length (sealed body)) 5) [
            | none ↦ none
            | some (bus', w') ↦ some (true, bus', w')
          ])))
    ⊎ ((body : List ℕ) → ¬ Carries full body)
      × (req_try exec exec_in_ms handler 0 full 5 ≡ (
          if ltb buffer_size (req_frame_len full.buffer 8)
          then some (true, record full { ptr = 0 }, 5)
          else some (false, full, 5)))
req_try-Carries_example = req_try-Carries exec exec_in_ms handler 0 full 5 refl full_bytes

-- Three bytes of the request are in the buffer, the others are in the receive FIFO; the replies leave
-- by a FIFO of four bytes.
abbrev arriving : Bus
arriving = record full {
  rx = record empty {
    buffer = 0 ∷ 0 ∷ 10 ∷ 0xc5 ∷ 0xcd ∷ 0 ∷ [];
    size = 6;
    wptr = 5;
    free = 1;
    used = 5;
  };
  tx = record empty { buffer = replicate 4 0; size = 4; free = 4 };
  addr = 1;
  buffer = (1 ∷ 3 ∷ 0 ∷ []) ++ replicate 253 0;
  ptr = 3;
}

abbrev request : List ℕ
request = 1 ∷ 3 ∷ 0 ∷ 0 ∷ 0 ∷ 10 ∷ 0xc5 ∷ 0xcd ∷ []

abbrev registers : Handler ℕ
registers = record handler { holding_register_get = some (λ n w. (success, n + 7, w + 1)) }

on_work-Sending_example :
    (bus1 : Bus) × (w1 : ℕ) × (w1 ≡ 5)
    × (written bus1 ≡ request)
    × (bus1.addr ≡ 1)
    × (bus' : Bus) × (w' : ℕ) × (on_work exec exec_in_ms registers 0 (λ n. 0) 1 arriving 5
        ≡ some (bus', w'))
    × ((t : Line ℕ)
        → Reach exec (record { bus = bus'; world = w'; received = [] }) t
        → Sending [] (answer_frame exec registers 0 bus1 8 w1) t.received t.bus)
unfolding req_frame_len insert_byte insert1
on_work-Sending_example =
    on_work-Sending exec exec_in_ms registers 0 (λ n. 0) 0 arriving 5 (omega arith) refl refl refl
      (omega arith) (omega arith) (omega arith) (omega arith) refl (omega arith) refl refl
      (omega arith) (omega arith) (λ e. omega arith)
