-- ===== src/Crc32.antt =====
-- src/crc32/crc32.c: the checksum by nibbles.
pub mod Chain
pub mod Bitwise
mod Tests
use picore.Base.{ℕ, ◌-◌, ◌==◌, ◌%◌, List, [], ◌∷◌, if◌then◌else◌, bit_xor, shr}

-- The macros `U` and `T`, which give the entries of the table `t`.
abbrev pub digit_entry : ℕ → ℕ → ℕ
digit_entry x sh = if shr x sh % 2 == 1 then shr 0xedb88320 (3 - sh) else 0

unfoldable pub table : ℕ → ℕ
table x =
    bit_xor (bit_xor (bit_xor (digit_entry x 0) (digit_entry x 1)) (digit_entry x 2))
      (digit_entry x 3)

-- `~crc`
abbrev pub complement : ℕ → ℕ
complement crc = 4294967295 - crc

abbrev pub nibble : ℕ → ℕ
nibble crc = bit_xor (shr crc 4) (table (crc % 16))

-- The body of the loop, and the loop.
unfoldable pub insert : ℕ → ℕ → ℕ
insert crc d = nibble (nibble (bit_xor crc d))

abbrev pub loop : ℕ → List ℕ → ℕ
loop crc [] = crc
loop crc (d ∷ ds) = loop (insert crc d) ds

-- `pr_crc32c_update`
unfoldable pub crc32c_update : ℕ → List ℕ → ℕ
crc32c_update crc bytes = complement (loop (complement crc) bytes)
