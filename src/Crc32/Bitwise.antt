-- ===== src/Crc32/Bitwise.antt =====
-- src/crc32/crc32.c goes by nibbles and a table; the definition of the checksum goes bit by bit.
use picore.Base.{
  ℕ, zero, suc, ◌*◌, ◌/◌, ◌%◌, ◌^◌, ◌≡◌, ◌==◌, refl, sym, ap, ap₂, ◌∙◌, arith, true, List, [], ◌∷◌,
  if◌then◌else◌, bit_xor, bit_xor_assoc, bit_xor_even, bit_xor_low, all_below, all_below_lem,
  ==_iff,
}
use native.Mathlib.Nat.{mul_assoc}
use picore.Crc32.{table, nibble, insert, loop, complement, crc32c_update}

-- The polynomial of CRC-32, the lowest bit first: that of x^31.
abbrev polynomial : ℕ
polynomial = 0xedb88320

abbrev selected : ℕ → ℕ
selected bit = if bit == 1 then polynomial else 0

-- One bit of the division.
abbrev bit_step : ℕ → ℕ
bit_step crc = bit_xor (crc / 2) (selected (crc % 2))

abbrev bit_steps : ℕ → ℕ → ℕ
bit_steps zero crc = crc
bit_steps (suc n) crc = bit_steps n (bit_step crc)

-- The bits of each byte, the lowest first.
abbrev pub divide : ℕ → List ℕ → ℕ
divide crc [] = crc
divide crc (d ∷ ds) = divide (bit_steps 8 (bit_xor crc d)) ds

bit_step_even : (m y : ℕ) → bit_step (bit_xor (m * 2) y) ≡ bit_xor m (bit_step y)
bit_step_even m y =
    let (h, d) = bit_xor_even m y in
    ap₂ (λ a b. bit_xor a (selected b)) h d ∙ bit_xor_assoc m (y / 2) (selected (y % 2))

table_steps : all_below 16 (λ l. bit_steps 4 l == table l) ≡ true
unfolding all_below table
table_steps = refl

bit_steps-above : (n h l : ℕ) → bit_steps n (bit_xor (h * 2 ^ n) l) ≡ bit_xor h (bit_steps n l)
bit_steps-above zero h l = ap (λ k. bit_xor k l) (omega arith)
bit_steps-above (suc n) h l =
    let power : 2 ^ suc n ≡ 2 ^ n * 2 = omega arith in
    let even = ap (λ p. h * p) power ∙ sym (mul_assoc h (2 ^ n) 2) in
    ap (λ k. bit_steps (suc n) (bit_xor k l)) even
    ∙ ap (bit_steps n) (bit_step_even (h * 2 ^ n) l)
    ∙ bit_steps-above n h (bit_step l)

nibble_lem : (crc : ℕ) → nibble crc ≡ bit_steps 4 crc
nibble_lem crc =
    let entry : bit_steps 4 (crc % 16) ≡ table (crc % 16) =
      (==_iff _ _).0
        (all_below_lem 16 (λ l. bit_steps 4 l == table l) (crc % 16) table_steps (omega arith)) in
    let split : bit_xor (crc / 16 * 16) (crc % 16) ≡ crc =
      bit_xor_low (crc / 16) (crc % 16) (omega arith) ∙ omega arith in
    ap (bit_xor (crc / 16)) (sym entry)
    ∙ sym (bit_steps-above 4 (crc / 16) (crc % 16))
    ∙ ap (bit_steps 4) split

loop-divide : (crc : ℕ) (bytes : List ℕ) → loop crc bytes ≡ divide crc bytes
unfolding insert
loop-divide crc [] = refl
loop-divide crc (d ∷ ds) =
    let byte : insert crc d ≡ bit_steps 8 (bit_xor crc d) =
      nibble_lem (nibble (bit_xor crc d)) ∙ ap (bit_steps 4) (nibble_lem (bit_xor crc d)) in
    ap (λ k. loop k ds) byte ∙ loop-divide (bit_steps 8 (bit_xor crc d)) ds

-- The checksum by nibbles and a table is the one by single bits with the polynomial of CRC-32.
pub crc32c_update-divide :
    (crc : ℕ) (bytes : List ℕ)
    → crc32c_update crc bytes ≡ complement (divide (complement crc) bytes)
unfolding crc32c_update
crc32c_update-divide crc bytes = ap complement (loop-divide (complement crc) bytes)
