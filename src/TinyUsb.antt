-- ===== src/TinyUsb.antt =====
-- src/tiny_usb/tiny_usb.c: the serial number of the USB device, a string descriptor in UTF-16. The
-- identifier of the board that the SDK returns is an argument.
pub mod Serial
pub mod Reset
mod Tests
use picore.Base.{
  ℕ, zero, suc, ◌+◌, ◌-◌, ◌%◌, ◌==◌, List, [], ◌∷◌, ◌++◌, if◌then◌else◌, ltb, shr, shl, u32, get_or,
}
use picore.Crc32.{crc32c_update}

unfoldable pub to_hex : ℕ → ℕ
to_hex v = let d = v % 16 in if ltb d 10 then 48 + d else d - 10 + 97

-- The loop of `pr_usb_serial_number` over `left` more digits.
abbrev pub hex_loop : ℕ → ℕ → List ℕ
hex_loop zero uid_crc = []
hex_loop (suc left) uid_crc = to_hex (shr uid_crc 28 % 16) ∷ hex_loop left (u32 (shl uid_crc 4))

-- `pr_usb_serial_number`; `serno_data` is the static buffer, of ten entries, and the result is what it
-- is made. 786 is `(3 << 8) | (2 * 8 + 2)`.
unfoldable pub serial_number : List ℕ → List ℕ → List ℕ
serial_number serno_data id =
    if get_or serno_data 0 0 == 0
    then 786 ∷ (hex_loop 8 (crc32c_update 0 id) ++ (get_or serno_data 9 0 ∷ []))
    else serno_data
