-- ===== src/Uart/Tests.antt =====
-- A UART with bytes to receive and room to send, and the properties of Uart's modules at it.
use picore.Base.{
  ℕ, ◌-◌, ◌≡◌, ◌⊎◌, refl, arith, Bool, true, false, none, some, List, [], ◌∷◌, ◌++◌, ltb,
  if◌then◌else◌,
}
use picore.Fifo.{Fifo}
use picore.Fifo.Inv.{IsValid}
use picore.Fifo.Contents.{contents}
use picore.Uart.{Hardware, Uart, instance_bits, update, on_from_port, on_to_port, enable_irqs}
use picore.Uart.Receive.{IsReceiver, on_from_port-in_order}
use picore.Uart.Transmit.{IsTransmitter, on_to_port-in_order}

-- `incoming` can be read, `outgoing` was written, of which no more than `room` bytes fit.
record Line : Type 0 where
  incoming : List ℕ
  outgoing : List ℕ
  room : ℕ

abbrev has_some : List ℕ → Bool
has_some [] = false
has_some (x ∷ xs) = true

abbrev first : List ℕ → ℕ
first [] = 0
first (x ∷ xs) = x

abbrev others : List ℕ → List ℕ
others [] = []
others (x ∷ xs) = xs

has_some-split : (xs : List ℕ) → has_some xs ≡ true → xs ≡ first xs ∷ others xs
has_some-split [] e = absurd (ground (arith, e))
has_some-split (x ∷ xs) e = refl

has_some-none : (xs : List ℕ) → has_some xs ≡ false → xs ≡ []
has_some-none [] e = refl
has_some-none (x ∷ xs) e = absurd (ground (arith, e))

abbrev line : Hardware Line
line = record {
  uart_init = λ i rate w. w;
  uart_set_irq_enables = λ i rx tx w. w;
  uart_set_fifo_enabled = λ i on w. w;
  uart_set_translate_crlf = λ i on w. w;
  uart_set_hw_flow = λ i cts rts w. w;
  uart_set_baudrate = λ i rate w. w;
  uart_set_format = λ i bits stops parity w. w;
  uart_is_readable = λ i w. has_some w.incoming;
  uart_is_writable = λ i w. ltb 0 w.room;
  uart_getc = λ i w. (first w.incoming, record w { incoming = others w.incoming });
  uart_putc_raw = λ i c w. record w { outgoing = w.outgoing ++ (c ∷ []); room = w.room - 1 };
  gpio_set_function_uart = λ pin w. w;
  irq_set_handler = λ i w. w;
  irq_set_enabled = λ i w. w;
}

abbrev no_exec : ℕ → Line → Line
no_exec task w = w

line-IsReceiver : IsReceiver line no_exec no_exec (λ w. w.incoming) 0
line-IsReceiver = record {
  readable = λ w e. has_some-split w.incoming e;
  unreadable = λ w e. has_some-none w.incoming e;
  masked = λ rx tx w. refl;
  woken = λ task w. refl;
}

line-IsTransmitter : IsTransmitter line no_exec no_exec (λ w. w.outgoing) 0
line-IsTransmitter = record {
  written = λ c w. refl;
  masked = λ rx tx w. refl;
  woken = λ task w. refl;
}

-- A FIFO of two bytes, one of them used.
abbrev half : Fifo
half = record {
  consumer = none;
  producer = none;
  buffer = 5 ∷ 0 ∷ [];
  size = 2;
  wptr = 1;
  rptr = 0;
  free = 1;
  used = 1;
}

half-IsValid : IsValid half 0 0
half-IsValid = omega arith

abbrev port : Uart
port = record {
  instance_no = 0;
  to_port = some 3;
  from_port = some 4;
  to_port_task = 10;
  from_port_task = 11;
  rxbuf = 0;
  txbuf = 0;
  rxbuf_free = true;
  txbuf_busy = false;
  has_cts = false;
  has_rts = false;
}

abbrev busy_line : Line
busy_line = record { incoming = 6 ∷ 7 ∷ 8 ∷ []; outgoing = []; room = 1 }

-- GPIO 0 and 1 belong to the first UART, 4 and 5 to the second, and no pin above 29 counts.
instance_bits_of_pins :
    (instance_bits 1 0 255 255 ≡ 1)
    × (instance_bits 5 4 255 255 ≡ 2)
    × (instance_bits 1 4 255 255 ≡ 3)
instance_bits_of_pins = (refl, refl, refl)

on_from_port-in_order_example :
    (u' : Uart) × (f' : Fifo) × (w' : Line) × (on_from_port line no_exec no_exec 20 port
        (λ p. half)
        busy_line
      ≡ some (u', update (λ p. half) 4 f', w'))
    × (contents f' ++ ((if u'.rxbuf_free then [] else u'.rxbuf ∷ []) ++ w'.incoming)
        ≡ 5 ∷ 6 ∷ 7 ∷ 8 ∷ [])
    × ((u'.rxbuf_free ≡ true) × (w'.incoming ≡ []) ⊎ (u'.rxbuf_free ≡ false) × (f'.free ≡ 0))
on_from_port-in_order_example =
    on_from_port-in_order line no_exec no_exec (λ w. w.incoming) 20 port (λ p. half) busy_line 4
      line-IsReceiver refl half-IsValid (omega arith)

on_to_port-in_order_example :
    (u' : Uart) × (f' : Fifo) × (w' : Line) × (w'' : Line) × (on_to_port line no_exec no_exec
        (λ i. 0)
        20
        port
        (λ p. half)
        busy_line
      ≡ some (u', update (λ p. half) 3 f', w'))
    × (w' ≡ enable_irqs line no_exec no_exec u' w'')
    × (w'.outgoing ++ ((if u'.txbuf_busy then u'.txbuf ∷ [] else []) ++ contents f') ≡ 5 ∷ [])
    × ((u'.txbuf_busy ≡ true) × (ltb 0 w''.room ≡ false)
        ⊎ (u'.txbuf_busy ≡ false) × (contents f' ≡ []))
on_to_port-in_order_example =
    on_to_port-in_order line no_exec no_exec (λ w. w.outgoing) (λ i. 0) 20 port (λ p. half)
      busy_line 3 line-IsTransmitter refl refl half-IsValid (omega arith)
