-- ===== src/CdcInterface/Tests.antt =====
-- A host that takes a few bytes, and the property of CdcInterface's modules at it.
use picore.Base.{
  ℕ, ◌≡◌, refl, arith, true, false, Option, none, some, List, [], ◌∷◌, ◌++◌, length, take, drop,
}
use picore.Fifo.{Fifo}
use picore.Fifo.Inv.{IsValid}
use picore.Fifo.Contents.{contents}
use picore.CdcInterface.{
  Cdc, Usb, uart_parity_even, lc_bits_get, lc_parity_get, lc_stop_get, handle,
}
use picore.CdcInterface.Transfer.{IsUsb, handle-in_order}

-- The bytes that the host has taken and sent, and how many more it takes at once.
record Host : Type 0 where
  taken : List ℕ
  to_read : List ℕ
  room : ℕ

abbrev host : Usb Host
host = record {
  tud_cdc_n_write_available = λ i w. w.room;
  tud_cdc_n_write = λ i bytes w. (length bytes, record w { taken = w.taken ++ bytes });
  tud_cdc_n_write_flush = λ i w. w;
  tud_cdc_n_available = λ i w. length w.to_read;
  tud_cdc_n_read = λ i n w. (take n w.to_read, record w { to_read = drop n w.to_read });
  tud_cdc_n_connected = λ i w. true;
}

abbrev exec : Option ℕ → Host → Host
exec task w = w

abbrev exec_in_ms : ℕ → ℕ → Host → Host
exec_in_ms task ms w = w

host-IsUsb : IsUsb host exec exec_in_ms (λ w. w.taken) (λ w. w.to_read) 0
host-IsUsb = record {
  written = λ bytes w le. (refl, refl, refl);
  available = λ w. refl;
  received = λ n w le. (refl, refl, refl);
  flushed = λ w. (refl, refl);
  executed = λ task w. (refl, refl);
  executed_later = λ task ms w. (refl, refl);
}

abbrev two_bytes : Fifo
two_bytes = record {
  consumer = none;
  producer = none;
  buffer = 4 ∷ 3 ∷ [];
  size = 2;
  wptr = 1;
  rptr = 1;
  free = 0;
  used = 2;
}

abbrev one_byte : Fifo
one_byte = record two_bytes { wptr = 0; free = 1; used = 1 }

abbrev closed : Cdc
closed = record {
  lc = record { bit_rate = 115200; stop_bits = 1; parity = 2; data_bits = 7 };
  ctsrts = false;
  is_open = false;
  index = 0;
  events = 0;
  on_event = some 2;
  handler = 1;
}

line_coding :
    (lc_bits_get closed.lc ≡ 7)
    × (lc_parity_get closed.lc ≡ uart_parity_even)
    × (lc_stop_get closed.lc ≡ 1)
line_coding = (refl, refl, refl)

abbrev busy_host : Host
busy_host = record { taken = 1 ∷ 2 ∷ []; to_read = 8 ∷ 9 ∷ []; room = 5 }

handle-in_order_example :
    (c' : Cdc) × (to_usb' : Fifo) × (from_usb' : Fifo) × (w' : Host) × (handle host exec exec_in_ms
        closed two_bytes one_byte busy_host
      ≡ some (c', to_usb', from_usb', w'))
    × IsValid to_usb' 0 0
    × IsValid from_usb' 0 0
    × (w'.taken ++ contents to_usb' ≡ 1 ∷ 2 ∷ 3 ∷ 4 ∷ [])
    × (contents from_usb' ++ w'.to_read ≡ 3 ∷ 8 ∷ 9 ∷ [])
handle-in_order_example =
    handle-in_order host exec exec_in_ms (λ w. w.taken) (λ w. w.to_read) closed two_bytes one_byte
      busy_host host-IsUsb refl (omega arith) (omega arith)
