-- ===== src/Modbus/Worker.antt =====
-- The tasks of src/modbus/modbus.c: what arrives is gathered in the buffer until it is a frame.
pub mod Gather
pub mod Safe
pub mod Serve
mod Tests
use picore.Base.{
  ℕ, ◌+◌, ◌==◌, Bool, true, false, not, Option, none, some, List, if◌then◌else◌, ltb, take, blit,
  length, sub32, u8, u16,
}
use picore.Fifo as Fifo
use picore.Fifo.{Fifo}
use picore.Modbus.{Handler, Bus, buffer_size}
use picore.Modbus.Crc.{crc_init, check_state, crc_update}
use picore.Modbus.Frame.{req_frame_len, rsp_frame_len}
use picore.Modbus.Request.{tx_try, req_handle}

abbrev pub timeout_ms : ℕ
timeout_ms = 50

-- `bus_rsp_handle`
abbrev pub rsp_handle : Bus → Bus
rsp_handle bus = record bus { ptr = 0; rsp_size = 0 }

-- The checksum test on the first `frame_len` bytes.
abbrev pub checks : Bus → ℕ → Bool
checks bus frame_len = crc_update crc_init (take frame_len bus.buffer) == check_state

-- `modbus_rsp_try`
unfoldable pub rsp_try : Bus → Option (Bool × Bus)
rsp_try bus = elim (rsp_frame_len bus.buffer bus.ptr) [
  | none ↦ none
  | some frame_len ↦
      if frame_len == 0
      then some (false, bus)
      else (if ltb buffer_size frame_len
          then some (true, record bus { ptr = 0 })
          else (if ltb bus.ptr frame_len
              then some (false, bus)
              else (if checks bus frame_len
                  then some (true, rsp_handle bus)
                  else some (false, bus))))
]

-- `pr_modbus_init`; `task_init` is `pr_task_init` with the queue and the handler.
unfoldable pub init : {W : Type 0} → (ℕ → W → W) → Fifo → Fifo → ℕ → ℕ → List ℕ → ℕ → W → Bus × W
init task_init tx rx worker clear storage addr w = (
  record {
    rx = Fifo.consumer_set rx (some worker);
    tx = Fifo.producer_set tx (some worker);
    worker = worker;
    clear = clear;
    addr = u8 addr;
    buffer = storage;
    ptr = 0;
    rsp_size = 0;
  },
  task_init clear (task_init worker w),
)

-- `exec` is `pr_task_exec` and `exec_in_ms` is `pr_task_exec_in_ms`.
module _ {W : Type 0} (exec : Option ℕ → W → W) (exec_in_ms : ℕ → ℕ → W → W) (handler : Handler W)
    (fuel : ℕ) where
  -- `modbus_req_try`
  unfoldable pub req_try : Bus → W → Option (Bool × Bus × W)
  req_try bus w =
      let frame_len = req_frame_len bus.buffer bus.ptr in
      if frame_len == 0
      then some (false, bus, w)
      else (if ltb buffer_size frame_len
          then some (true, record bus { ptr = 0 }, w)
          else (if ltb bus.ptr frame_len
              then some (false, bus, w)
              else (if not (checks bus frame_len)
                  then some (false, bus, w)
                  else (elim (req_handle exec handler fuel bus frame_len w) [
                    | none ↦ none
                    | some (bus', w') ↦ some (true, bus', w')
                  ]))))

  -- `modbus_req_try(bus) || modbus_rsp_try(bus)`, and the timer where neither made use of the bytes.
  unfoldable pub frame_try : Bus → W → Option (Bus × W)
  frame_try bus w = elim (req_try bus w) [
    | none ↦ none
    | some (done, bus1, w1) ↦ if done then some (bus1, w1) else (elim (rsp_try bus1) [
      | none ↦ none
      | some (done', bus2) ↦
          if done'
          then some (bus2, w1)
          else (some (bus2, if bus2.ptr == 0 then w1 else exec_in_ms bus2.clear timeout_ms w1))
    ])
  ]

  -- `modbus_rx_try`; `outer` and `read_fuel` are those of `pr_fifo_read`.
  unfoldable pub rx_try : (ℕ → ℕ) → ℕ → Bus → W → Option (Bus × W)
  rx_try outer read_fuel bus w =
      elim (Fifo.read exec outer read_fuel bus.rx w (sub32 buffer_size bus.ptr)) [
        | none ↦ none
        | some (bytes, rx, w') ↦
            frame_try
              (record bus {
                rx = rx;
                buffer = blit bus.buffer bus.ptr bytes;
                ptr = u16 (bus.ptr + length bytes);
              })
              w'
      ]

  -- `modbus_clear`
  unfoldable pub clear : Bus → W → Bus × W
  clear bus w = (
    record bus { ptr = 0; rsp_size = 0 },
    if Fifo.is_empty bus.rx then w else exec (some bus.worker) w,
  )

  -- `on_work`
  unfoldable pub on_work : (ℕ → ℕ) → ℕ → Bus → W → Option (Bus × W)
  on_work outer read_fuel bus w =
      if bus.rsp_size == 0 then rx_try outer read_fuel bus w else tx_try exec bus w
