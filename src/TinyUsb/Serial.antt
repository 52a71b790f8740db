-- ===== src/TinyUsb/Serial.antt =====
-- What the serial number of src/tiny_usb/tiny_usb.c says.
use picore.Base.{
  ℕ, zero, suc, ◌+◌, ◌-◌, ◌*◌, ◌/◌, ◌%◌, ◌^◌, ◌<◌, ◌≤◌, ◌⊎◌, ◌++◌, ◌≡◌, refl, sym, ap, ◌∙◌, arith,
  List, [], ◌∷◌, if◌then◌else◌, ltb, shr, shl, u32, get_or, take, drop,
}
use native.Mathlib.Nat.{mul_assoc}
use picore.Crc32.{crc32c_update}
use picore.TinyUsb.{to_hex, hex_loop, serial_number}

-- The value of a hexadecimal digit, and of a text of them after `acc`.
abbrev pub digit_value : ℕ → ℕ
digit_value c = if ltb c 58 then c - 48 else c - 87

abbrev pub text_value : ℕ → List ℕ → ℕ
text_value acc [] = acc
text_value acc (c ∷ cs) = text_value (acc * 16 + digit_value c) cs

digit_value-to_hex : (v : ℕ) → digit_value (to_hex v) ≡ v % 16
unfolding to_hex
digit_value-to_hex v = ground arith

-- The digits read so far and the bits left keep the value.
step :
    (acc v : ℕ)
    → v < 4294967296
    → (acc * 16 + digit_value (to_hex (shr v 28 % 16))) * 4294967296 + u32 (shl v 4)
      ≡ 16 * (acc * 4294967296 + v)
step acc v lt = let d = digit_value-to_hex (shr v 28 % 16) in omega (arith, d)

text_value-hex_loop :
    (n acc v : ℕ)
    → v < 4294967296
    → text_value acc (hex_loop n v) ≡ 16 ^ n * (acc * 4294967296 + v) / 4294967296
text_value-hex_loop zero acc v lt = omega arith
text_value-hex_loop (suc n) acc v lt =
    let power : 16 ^ n * 16 ≡ 16 ^ suc n = omega arith in
    let acc' = acc * 16 + digit_value (to_hex (shr v 28 % 16)) in
    text_value-hex_loop n acc' (u32 (shl v 4)) (omega arith)
    ∙ ap (λ k. 16 ^ n * k / 4294967296) (step acc v lt)
    ∙ ap (λ k. k / 4294967296) (sym (mul_assoc (16 ^ n) 16 (acc * 4294967296 + v)))
    ∙ ap (λ p. p * (acc * 4294967296 + v) / 4294967296) power

crc32c_update_bound : (crc : ℕ) (bytes : List ℕ) → crc32c_update crc bytes < 4294967296
unfolding crc32c_update
crc32c_update_bound crc bytes = omega arith

-- The characters `0` to `9` and `a` to `f`.
abbrev pub IsHex : ℕ → Type 0
IsHex c = (48 ≤ c) × (c ≤ 57) ⊎ (97 ≤ c) × (c ≤ 102)

to_hex-IsHex : (v : ℕ) → IsHex (to_hex v)
unfolding to_hex
to_hex-IsHex v = ground arith

hex_loop-IsHex :
    (n v : ℕ) (rest : List ℕ) (i : ℕ) → i < n → IsHex (get_or (hex_loop n v ++ rest) i 0)
hex_loop-IsHex zero v rest i lt = absurd (omega arith)
hex_loop-IsHex (suc n) v rest zero lt = to_hex-IsHex (shr v 28 % 16)
hex_loop-IsHex (suc n) v rest (suc i) lt = hex_loop-IsHex n (u32 (shl v 4)) rest i (omega arith)

-- The first call, on a buffer whose first entry is 0, returns a descriptor whose first entry has the
-- length of 18 bytes in its low byte and the type 3, a string, in its high byte; the next eight entries
-- are characters `0` to `9` or `a` to `f` and write the CRC-32 of the board's identifier in
-- hexadecimal; a further call returns the same buffer, whatever the identifier then is.
pub serial_number-text :
    (serno_data id id' : List ℕ)
    → get_or serno_data 0 0 ≡ 0
    → let result = serial_number serno_data id in
      (get_or result 0 0 % 256 ≡ 18)
      × (get_or result 0 0 / 256 ≡ 3)
      × ((i : ℕ) → i < 8 → IsHex (get_or (drop 1 result) i 0))
      × (text_value 0 (take 8 (drop 1 result)) ≡ crc32c_update 0 id)
      × (serial_number result id' ≡ result)
unfolding serial_number
serial_number-text serno_data id id' empty = rw empty (
  refl,
  refl,
  λ i lt. hex_loop-IsHex 8 (crc32c_update 0 id) (get_or serno_data 9 0 ∷ []) i lt,
  text_value-hex_loop 8 0 (crc32c_update 0 id) (crc32c_update_bound 0 id) ∙ omega arith,
  refl,
)
