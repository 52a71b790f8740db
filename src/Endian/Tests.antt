-- ===== src/Endian/Tests.antt =====
-- The theorems on byte order at concrete values.
use picore.Base.{ℕ, ◌≡◌, refl, arith, List, [], ◌∷◌}
use picore.Endian.{be32_na_read, le32_na_read, be32_na_write, le32_na_write}
use picore.Endian.RoundTrip.{round_trip32}

abbrev zeros : List ℕ
zeros = 0 ∷ 0 ∷ 0 ∷ 0 ∷ 0 ∷ []

big_first : be32_na_write zeros 1 0x01020304 ≡ 0 ∷ 1 ∷ 2 ∷ 3 ∷ 4 ∷ []
unfolding be32_na_write
big_first = refl

little_first : le32_na_write zeros 0 0x01020304 ≡ 4 ∷ 3 ∷ 2 ∷ 1 ∷ 0 ∷ []
unfolding le32_na_write
little_first = refl

round_trip32_example :
    (be32_na_read (be32_na_write zeros 1 0xdeadbeef) 1 ≡ 0xdeadbeef)
    × (le32_na_read (le32_na_write zeros 1 0xdeadbeef) 1 ≡ 0xdeadbeef)
round_trip32_example = round_trip32 zeros 1 0xdeadbeef (omega arith) (omega arith)
