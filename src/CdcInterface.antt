-- ===== src/CdcInterface.antt =====
-- src/cdc_interface/cdc_interface.c: bytes between two FIFOs and a USB CDC interface. TinyUSB's functions and
-- `pr_task_exec` act on a state `W`; `none` is a failed assertion. The two FIFOs are distinct.
pub mod Transfer
mod Tests
use picore.Base.{
  ℕ, zero, suc, ◌==◌, Bool, true, false, not, ◌&&◌, Option, none, some, List, length, if◌then◌else◌,
  bit_or, slice,
}
use picore.Fifo.{
  Fifo, read_prepare, read_done, write_prepare, write_done, store, is_empty, consumer_set,
  producer_set,
}

-- What the driver uses of `tusb.h`; the first argument is the index of the interface.
pub record Usb (W : Type 0) : Type 0 where
  pub tud_cdc_n_write_available : ℕ → W → ℕ
  pub tud_cdc_n_write : ℕ → List ℕ → W → ℕ × W
  pub tud_cdc_n_write_flush : ℕ → W → W
  pub tud_cdc_n_available : ℕ → W → ℕ
  pub tud_cdc_n_read : ℕ → ℕ → W → List ℕ × W
  pub tud_cdc_n_connected : ℕ → W → Bool

-- `cdc_line_coding_t`
pub record LineCoding : Type 0 where
  pub bit_rate : ℕ
  pub stop_bits : ℕ
  pub parity : ℕ
  pub data_bits : ℕ

-- `struct pr_cdc_interface`, less the pointers to the FIFOs.
pub record Cdc : Type 0 where
  pub lc : LineCoding
  pub ctsrts : Bool
  pub is_open : Bool
  pub index : ℕ
  pub events : ℕ
  pub on_event : Option ℕ
  pub handler : ℕ

-- `PR_CDC_INTERFACE_EVENT_…`
abbrev pub event_rx : ℕ
event_rx = 1

abbrev pub event_tx : ℕ
event_tx = 2

abbrev pub event_open : ℕ
event_open = 4

abbrev pub event_lc : ℕ
event_lc = 8

abbrev pub event_ctsrts : ℕ
event_ctsrts = 16

abbrev pub raise : Cdc → ℕ → Cdc
raise c event = record c { events = bit_or c.events event }

-- `usb_cdc_lc_bits_get` and `usb_cdc_lc_stop_get`
abbrev pub lc_bits_get : LineCoding → ℕ
lc_bits_get lc =
    if lc.data_bits == 5
    then 5
    else (if lc.data_bits == 6 then 6 else (if lc.data_bits == 7 then 7 else 8))

abbrev pub lc_stop_get : LineCoding → ℕ
lc_stop_get lc = if lc.stop_bits == 2 then 2 else 1

-- `usb_cdc_lc_parity_get`
pub data Parity : Type 0 where
  uart_parity_none uart_parity_even uart_parity_odd : Parity

abbrev pub lc_parity_get : LineCoding → Parity
lc_parity_get lc =
    if lc.parity == 1
    then uart_parity_odd
    else (if lc.parity == 2 then uart_parity_even else uart_parity_none)

module _ {W : Type 0} (usb : Usb W) (exec : Option ℕ → W → W) (exec_in_ms : ℕ → ℕ → W → W) where
  open usb use {
    tud_cdc_n_write_available, tud_cdc_n_write, tud_cdc_n_write_flush, tud_cdc_n_available,
    tud_cdc_n_read, tud_cdc_n_connected,
  }

  -- `to_usb_try_send` from the FIFO `f`: the bytes sent.
  unfoldable pub to_usb_try_send : Cdc → Fifo → W → Option (ℕ × Fifo × W)
  to_usb_try_send c f w =
      let g = read_prepare f (tud_cdc_n_write_available c.index w) in
      let (written, w1) = tud_cdc_n_write c.index (slice g.fifo.buffer g.offset g.count) w in
      let (f', w') = if g.count == 0 then (g.fifo, w) else read_done exec g.fifo g.count w1 in
      if tud_cdc_n_write_available c.index w == 0
      then some (0, f, exec (some c.handler) w)
      else (if (not (g.count == 0)) && not (g.count == written)
          then none
          else some (
            g.count,
            f',
            if is_empty f' then tud_cdc_n_write_flush c.index w' else exec (some c.handler) w',
          ))

  -- `from_usb_try_recv` to the FIFO `f`: the bytes received.
  unfoldable pub from_usb_try_recv : Cdc → Fifo → W → Option (ℕ × Fifo × W)
  from_usb_try_recv c f w =
      let g = write_prepare f (tud_cdc_n_available c.index w) in
      let (bytes, w1) = tud_cdc_n_read c.index g.count w in
      let (f', w') = write_done exec (store g.fifo g.offset bytes) g.count w1 in
      if tud_cdc_n_available c.index w == 0
      then some (0, f, w)
      else (if g.count == length bytes then some (g.count, f', w') else none)

  -- `if (transferred) intf->events |= event;`
  abbrev pub raise_if_any : Cdc → ℕ → ℕ → Cdc
  raise_if_any c count event = if count == 0 then c else raise c event

  -- `handler`, with the FIFOs to and from USB.
  unfoldable pub handle : Cdc → Fifo → Fifo → W → Option (Cdc × Fifo × Fifo × W)
  handle c to_usb from_usb w =
      let changed = raise (record c { is_open = tud_cdc_n_connected c.index w }) event_open in
      let report = λ (c' : Cdc) (w' : W). if c'.events == 0 then w' else exec c'.on_event w' in
      if tud_cdc_n_connected c.index w
      then (let opened = if c.is_open then c else changed in
          elim (to_usb_try_send opened to_usb w) [
            | none ↦ none
            | some (sent, to_usb', w1) ↦ elim (from_usb_try_recv opened from_usb w1) [
              | none ↦ none
              | some (received, from_usb', w2) ↦
                  let c' = raise_if_any (raise_if_any opened sent event_tx) received event_rx in
                  some (c', to_usb', from_usb', report c' (exec_in_ms c.handler 100 w2))
            ]
          ])
      else (let closed = if c.is_open then changed else c in
          some (closed, to_usb, from_usb, report closed w))

  -- `tud_cdc_tx_complete_cb` and `tud_cdc_rx_cb`, `tud_cdc_line_coding_cb` and `tud_cdc_line_state_cb`, for the
  -- interface of their index, `none` if there is none.
  abbrev pub transfer_cb : Option Cdc → W → W
  transfer_cb none w = w
  transfer_cb (some c) w = exec (some c.handler) w

  abbrev pub line_coding_cb : Option Cdc → LineCoding → W → Option Cdc × W
  line_coding_cb none lc w = (none, w)
  line_coding_cb (some c) lc w = (some (raise (record c { lc = lc }) event_lc), exec c.on_event w)

  abbrev pub line_state_cb : Option Cdc → Bool → Bool → W → Option Cdc × W
  line_state_cb none dtr rts w = (none, w)
  line_state_cb (some c) dtr rts w =
      (some (raise (record c { ctsrts = rts }) event_ctsrts), exec c.on_event w)

  -- `pr_cdc_interface_init`; `before` is what the structure holds, one field of which it does not assign.
  abbrev pub init : Cdc → ℕ → Fifo → Fifo → Option ℕ → W → Cdc × Fifo × Fifo × W
  init before cdc_index to_usb from_usb on_event w = (
    record before {
      lc = record { bit_rate = 115200; stop_bits = 1; parity = 0; data_bits = 8 };
      is_open = false;
      index = cdc_index;
      events = 0;
      on_event = on_event;
    },
    consumer_set to_usb (some before.handler),
    producer_set from_usb (some before.handler),
    exec (some before.handler) w,
  )
