-- ===== src/TinyUsb/Tests.antt =====
-- The serial number of a board, and the property of TinyUsb's modules at it.
use picore.Base.{
  ℕ, true, false, ◌+◌, ◌%◌, ◌/◌, ◌<◌, ◌≡◌, refl, List, [], ◌∷◌, get_or, take, drop, replicate,
}
use picore.Crc32.{crc32c_update, insert, table}
use picore.TinyUsb.{serial_number, to_hex}
use picore.TinyUsb.Reset.{
  Interface, descriptor, driver_open, control_xfer_cb, request_flash, request_bootsel,
}
use picore.TinyUsb.Serial.{IsHex, text_value, serial_number-text}

-- "12345678"
abbrev board : List ℕ
board = 0x31 ∷ 0x32 ∷ 0x33 ∷ 0x34 ∷ 0x35 ∷ 0x36 ∷ 0x37 ∷ 0x38 ∷ []

-- "9ae0daaf" after the descriptor's first entry
text :
    serial_number (replicate 10 0) board ≡ 786 ∷ 57 ∷ 97 ∷ 101 ∷ 48 ∷ 100 ∷ 97 ∷ 97 ∷ 102 ∷ 0 ∷ []
unfolding serial_number to_hex crc32c_update insert table
text = refl

serial_number-text_example :
    let result = serial_number (replicate 10 0) board in
    (get_or result 0 0 % 256 ≡ 18)
    × (get_or result 0 0 / 256 ≡ 3)
    × ((i : ℕ) → i < 8 → IsHex (get_or (drop 1 result) i 0))
    × (text_value 0 (take 8 (drop 1 result)) ≡ crc32c_update 0 board)
    × (serial_number result [] ≡ result)
serial_number-text_example = serial_number-text (replicate 10 0) board [] refl

-- The interface that a descriptor describes, by the layout of USB: the bytes 2 and 5 to 7.
abbrev described : List ℕ → Interface
described bytes = record {
  interface_number = get_or bytes 2 0;
  interface_class = get_or bytes 5 0;
  interface_sub_class = get_or bytes 6 0;
  interface_protocol = get_or bytes 7 0;
}

-- The driver takes the interface of its own descriptor, with all of its nine bytes.
opened : driver_open 255 9 0 (described (descriptor 4 255 3 0)) 9 ≡ (3, 9)
unfolding driver_open
opened = refl

cut_short : driver_open 255 9 0 (described (descriptor 4 255 3 0)) 8 ≡ (0, 0)
unfolding driver_open
cut_short = refl

-- The state counts the resets: through the watchdog by 1, into the boot loader by 10.
flash_request : control_xfer_cb (λ w. w + 10) (λ w. w + 1) 1 3 1 3 request_flash 0 ≡ (true, 1)
unfolding control_xfer_cb
flash_request = refl

other_interface : control_xfer_cb (λ w. w + 10) (λ w. w + 1) 1 3 1 2 request_flash 0 ≡ (false, 0)
unfolding control_xfer_cb
other_interface = refl

bootsel_request : control_xfer_cb (λ w. w + 10) (λ w. w + 1) 1 3 1 3 request_bootsel 0 ≡ (false, 10)
unfolding control_xfer_cb
bootsel_request = refl
