-- ===== src/Crc32/Tests.antt =====
-- The checksum of src/crc32/crc32.c on known data.
use picore.Base.{ℕ, ◌≡◌, refl, List, [], ◌∷◌}
use picore.Crc32.{table, insert, complement, crc32c_update}
use picore.Crc32.Bitwise.{divide, crc32c_update-divide}

-- "123456789"
abbrev digits : List ℕ
digits = 0x31 ∷ 0x32 ∷ 0x33 ∷ 0x34 ∷ 0x35 ∷ 0x36 ∷ 0x37 ∷ 0x38 ∷ 0x39 ∷ []

check_value : crc32c_update 0 digits ≡ 0xcbf43926
unfolding crc32c_update insert table
check_value = refl

crc32c_update-divide_example : crc32c_update 0 digits ≡ complement (divide 4294967295 digits)
crc32c_update-divide_example = crc32c_update-divide 0 digits
