-- ===== src/Uart.antt =====
-- src/uart/uart.c: the tasks that move bytes between a UART and two FIFOs. The SDK's functions and
-- `pr_task_exec` act on a state `W`; a pointer to a FIFO or a task is a handle, `none` is NULL.
pub mod Receive
pub mod Transmit
pub mod Attach
mod Tests
use picore.Base.{
  ℕ, zero, suc, ◌+◌, ◌-◌, ◌*◌, ◌/◌, ◌^◌, ◌==◌, Bool, true, false, not, ◌&&◌, ◌||◌, Option, none,
  some, List, [], ◌∷◌, if◌then◌else◌, ltb, bit_and, bit_or, bit_xor, shl, shr, get_or,
}
use picore.Fifo.{Fifo, producer_set, consumer_set}
use picore.Fifo as F

-- What the driver uses of `hardware/uart.h`, `hardware/gpio.h` and `hardware/irq.h`; the first argument of each is
-- the instance or the pin.
pub record Hardware (W : Type 0) : Type 0 where
  pub uart_init : ℕ → ℕ → W → W
  pub uart_set_irq_enables : ℕ → Bool → Bool → W → W
  pub uart_set_fifo_enabled : ℕ → Bool → W → W
  pub uart_set_translate_crlf : ℕ → Bool → W → W
  pub uart_set_hw_flow : ℕ → Bool → Bool → W → W
  pub uart_set_baudrate : ℕ → ℕ → W → W
  pub uart_set_format : ℕ → ℕ → ℕ → ℕ → W → W
  pub uart_is_readable : ℕ → W → Bool
  pub uart_is_writable : ℕ → W → Bool
  pub uart_getc : ℕ → W → ℕ × W
  pub uart_putc_raw : ℕ → ℕ → W → W
  pub gpio_set_function_uart : ℕ → W → W
  pub irq_set_handler : ℕ → W → W
  pub irq_set_enabled : ℕ → W → W

-- `struct pr_uart`; `instance_no` is the UART's number.
pub record Uart : Type 0 where
  pub instance_no : ℕ
  pub to_port : Option ℕ
  pub from_port : Option ℕ
  pub to_port_task : ℕ
  pub from_port_task : ℕ
  pub rxbuf : ℕ
  pub txbuf : ℕ
  pub rxbuf_free : Bool
  pub txbuf_busy : Bool
  pub has_cts : Bool
  pub has_rts : Bool

-- `uart_bit_for_pin`
abbrev pub uart_bit_for_pin : ℕ → ℕ
uart_bit_for_pin pin = if ltb pin 30 then 2 ^ bit_and (bit_xor (pin / 4) (shr (pin / 4) 1)) 1 else 0

-- `instance_bit` in `pr_uart_init`
abbrev pub instance_bits : ℕ → ℕ → ℕ → ℕ → ℕ
instance_bits rx tx cts rts =
    let both = bit_or (bit_or 0 (uart_bit_for_pin rx)) (uart_bit_for_pin tx) in
    let three = if ltb cts 30 then bit_or both (uart_bit_for_pin cts) else both in
    if ltb rts 30 then bit_or three (uart_bit_for_pin rts) else three

-- `fifos[p] = f`
abbrev pub update : (ℕ → Fifo) → ℕ → Fifo → ℕ → Fifo
update fifos p f q = if q == p then f else fifos q

abbrev pub at_pointer : (Fifo → Fifo) → Option ℕ → (ℕ → Fifo) → ℕ → Fifo
at_pointer change none fifos = fifos
at_pointer change (some p) fifos = update fifos p (change (fifos p))

module _ {W : Type 0} (hw : Hardware W) (exec : ℕ → W → W) (task_init : ℕ → W → W) where
  open hw use {
    uart_init, uart_set_irq_enables, uart_set_fifo_enabled, uart_set_translate_crlf,
    uart_set_hw_flow, uart_set_baudrate, uart_set_format, uart_is_readable, uart_is_writable,
    uart_getc, uart_putc_raw, gpio_set_function_uart, irq_set_handler, irq_set_enabled,
  }

  -- `pr_task_exec` of a FIFO's consumer or producer, which may be NULL.
  abbrev pub wake : Option ℕ → W → W
  wake none w = w
  wake (some task) w = exec task w

  abbrev pub enable_irqs : Uart → W → W
  enable_irqs u w = uart_set_irq_enables u.instance_no u.rxbuf_free u.txbuf_busy w

  -- The loop of `on_from_port` on fuel, with the FIFO that `from_port` points to.
  unfoldable pub from_loop : ℕ → Uart → Fifo → W → Option (Uart × Fifo × W)
  from_loop zero u f w = none
  from_loop (suc fuel) u f w = elim u.rxbuf_free [
    | false ↦ elim (F.write wake f w (u.rxbuf ∷ []) 1) [
      | none ↦ none
      | some (written, f', w') ↦
          let rest = from_loop fuel (record u { rxbuf_free = true }) f' w' in
          if written == 0 then some (u, f', w') else rest
    ]
    | true ↦
        let (c, w') = uart_getc u.instance_no w in
        let rest = from_loop fuel (record u { rxbuf = c; rxbuf_free = false }) f w' in
        if uart_is_readable u.instance_no w then rest else some (u, f, w)
  ]

  unfoldable pub on_from_port : ℕ → Uart → (ℕ → Fifo) → W → Option (Uart × (ℕ → Fifo) × W)
  on_from_port fuel u fifos w = elim u.from_port [
    | none ↦ some (u, fifos, enable_irqs u w)
    | some p ↦ elim (from_loop fuel u (fifos p) w) [
      | none ↦ none
      | some (u', f', w') ↦ some (u', update fifos p f', enable_irqs u' w')
    ]
  ]

  -- The loop of `on_to_port` likewise. `outer` are the indeterminate values that `pr_fifo_read` reads.
  unfoldable pub to_loop : (ℕ → ℕ) → ℕ → Uart → Fifo → W → Option (Uart × Fifo × W)
  to_loop outer zero u f w = none
  to_loop outer (suc fuel) u f w = elim u.txbuf_busy [
    | false ↦ elim (F.read wake outer (suc fuel) f w 1) [
      | none ↦ none
      | some (bytes, f', w') ↦ elim bytes [
        | [] ↦ some (u, f', w')
        | c ∷ cs ↦ to_loop outer fuel (record u { txbuf = c; txbuf_busy = true }) f' w'
      ]
    ]
    | true ↦
        let rest =
          to_loop outer fuel (record u { txbuf_busy = false }) f
            (uart_putc_raw u.instance_no u.txbuf w) in
        if uart_is_writable u.instance_no w then rest else some (u, f, w)
  ]

  unfoldable pub on_to_port : (ℕ → ℕ) → ℕ → Uart → (ℕ → Fifo) → W → Option (Uart × (ℕ → Fifo) × W)
  on_to_port outer fuel u fifos w = elim u.to_port [
    | none ↦ some (u, fifos, enable_irqs u w)
    | some p ↦ elim (to_loop outer fuel u (fifos p) w) [
      | none ↦ none
      | some (u', f', w') ↦ some (u', update fifos p f', enable_irqs u' w')
    ]
  ]

  -- `on_uart_io`, the interrupt
  unfoldable pub on_uart_io : Uart → W → W
  on_uart_io u w =
      let w1 = if uart_is_writable u.instance_no w then exec u.to_port_task w else w in
      let w2 = if uart_is_readable u.instance_no w then exec u.from_port_task w1 else w1 in
      uart_set_irq_enables u.instance_no false false w2

  abbrev set_pin : ℕ → W → W
  set_pin pin w = if ltb pin 30 then gpio_set_function_uart pin w else w

  -- `pr_uart_init`; `none` is a failed assertion, and `before` what the structure holds, two fields
  -- of which it does not assign.
  unfoldable pub init : Uart → ℕ → ℕ → ℕ → ℕ → W → Option (Uart × W)
  init before rx tx cts rts w =
      let bits = instance_bits rx tx cts rts in
      let n = if bits == 1 then 0 else 1 in
      let w1 = uart_set_translate_crlf n false (
        uart_set_fifo_enabled n true (uart_set_irq_enables n false false (uart_init n 115200 w))) in
      let w2 = set_pin rts (set_pin cts (set_pin tx (set_pin rx w1))) in
      let w3 = uart_set_hw_flow n (ltb cts 30) (ltb rts 30) w2 in
      let w4 = task_init before.from_port_task (task_init before.to_port_task w3) in
      let after = record before {
        instance_no = n;
        to_port = none;
        from_port = none;
        rxbuf_free = true;
        has_cts = ltb cts 30;
        has_rts = ltb rts 30;
      } in
      if (bits == 0) || not (bit_and bits (bits - 1) == 0)
      then none
      else some (after, irq_set_enabled n (irq_set_handler n w4))

  abbrev pub config_set : Uart → ℕ → ℕ → ℕ → ℕ → W → W
  config_set u baudrate bits parity stops w =
      uart_set_format u.instance_no bits stops parity (uart_set_baudrate u.instance_no baudrate w)

  abbrev pub flow_control_set : Uart → Bool → W → W
  flow_control_set u ctsrts w =
      uart_set_hw_flow u.instance_no (u.has_cts && ctsrts) (u.has_rts && ctsrts) w

  -- `pr_uart_attach`
  unfoldable pub attach : Uart → Option ℕ → Option ℕ → (ℕ → Fifo) → W → Uart × (ℕ → Fifo) × W
  attach u from_uart to_uart fifos w =
      let fifos1 = at_pointer (λ f. producer_set f none) u.from_port fifos in
      let fifos2 = at_pointer (λ f. consumer_set f none) u.to_port fifos1 in
      let fifos3 = at_pointer (λ f. producer_set f (some u.from_port_task)) from_uart fifos2 in
      let fifos4 = at_pointer (λ f. consumer_set f (some u.to_port_task)) to_uart fifos3 in
      (
        record u { to_port = to_uart; from_port = from_uart },
        fifos4,
        uart_set_irq_enables u.instance_no true true w,
      )
