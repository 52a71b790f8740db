-- ===== src/Endian.antt =====
-- src/endian/include/pr/endian.h: 16- and 32-bit values in unaligned memory. A pointer is a memory,
-- a list of bytes, and an offset in it.
pub mod RoundTrip
mod Tests
use picore.Base.{ℕ, ◌+◌, List, get_or, set, bit_or, shl, shr, u8, u16, u32}

-- `data[i]`
abbrev pub byte : List ℕ → ℕ → ℕ
byte mem i = get_or mem i 0

unfoldable pub be16_na_read : List ℕ → ℕ → ℕ
be16_na_read mem p = u16 (bit_or (shl (byte mem p) 8) (byte mem (p + 1)))

pub le16_na_read : List ℕ → ℕ → ℕ
le16_na_read mem p = u16 (bit_or (shl (byte mem (p + 1)) 8) (byte mem p))

pub be32_na_read : List ℕ → ℕ → ℕ
be32_na_read mem p =
    bit_or
      (bit_or (bit_or (u32 (shl (byte mem p) 24)) (shl (byte mem (p + 1)) 16))
        (shl (byte mem (p + 2)) 8))
      (byte mem (p + 3))

pub le32_na_read : List ℕ → ℕ → ℕ
le32_na_read mem p =
    bit_or
      (bit_or (bit_or (u32 (shl (byte mem (p + 3)) 24)) (shl (byte mem (p + 2)) 16))
        (shl (byte mem (p + 1)) 8))
      (byte mem p)

unfoldable pub be16_na_write : List ℕ → ℕ → ℕ → List ℕ
be16_na_write mem p value = set (set mem p (u8 (shr value 8))) (p + 1) (u8 value)

pub le16_na_write : List ℕ → ℕ → ℕ → List ℕ
le16_na_write mem p value = set (set mem p (u8 value)) (p + 1) (u8 (shr value 8))

pub be32_na_write : List ℕ → ℕ → ℕ → List ℕ
be32_na_write mem p value =
    set
      (set (set (set mem p (u8 (shr value 24))) (p + 1) (u8 (shr value 16))) (p + 2)
        (u8 (shr value 8)))
      (p + 3) (u8 value)

pub le32_na_write : List ℕ → ℕ → ℕ → List ℕ
le32_na_write mem p value =
    set (set (set (set mem p (u8 value)) (p + 1) (u8 (shr value 8))) (p + 2) (u8 (shr value 16)))
      (p + 3) (u8 (shr value 24))
