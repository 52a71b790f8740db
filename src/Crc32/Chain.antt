-- ===== src/Crc32/Chain.antt =====
-- The checksum of src/crc32/crc32.c over data that comes in parts.
use picore.Base.{
  ℕ, zero, suc, ◌%◌, ◌<◌, ◌≡◌, refl, sym, ap, ◌∙◌, arith, List, [], ◌∷◌, ◌++◌, get_or, bit_xor,
  bit_xor_bound, shr,
}
use picore.Crc32.{digit_entry, table, complement, nibble, insert, loop, crc32c_update}

digit_entry_bound : (x sh : ℕ) → sh < 4 → digit_entry x sh < 4294967296
digit_entry_bound x zero lt = ground arith
digit_entry_bound x (suc zero) lt = ground arith
digit_entry_bound x (suc (suc zero)) lt = ground arith
digit_entry_bound x (suc (suc (suc zero))) lt = ground arith
digit_entry_bound x (suc (suc (suc (suc sh)))) lt = absurd (omega arith)

xor32 : (a b : ℕ) → a < 4294967296 → b < 4294967296 → bit_xor a b < 4294967296
xor32 a b p q = bit_xor_bound 32 a b p q

table_bound : (x : ℕ) → table x < 4294967296
unfolding table
table_bound x =
    xor32 _ _
      (xor32 _ _
        (xor32 _ _ (digit_entry_bound x 0 (omega arith)) (digit_entry_bound x 1 (omega arith)))
        (digit_entry_bound x 2 (omega arith)))
      (digit_entry_bound x 3 (omega arith))

nibble_bound : (crc : ℕ) → crc < 4294967296 → nibble crc < 4294967296
nibble_bound crc lt = xor32 (shr crc 4) (table (crc % 16)) (omega arith) (table_bound (crc % 16))

insert_bound : (crc d : ℕ) → crc < 4294967296 → d < 256 → insert crc d < 4294967296
unfolding insert
insert_bound crc d lt small = nibble_bound _ (nibble_bound _ (xor32 crc d lt (omega arith)))

loop_bound :
    (crc : ℕ) (bytes : List ℕ)
    → crc < 4294967296
    → ((i : ℕ) → get_or bytes i 0 < 256)
    → loop crc bytes < 4294967296
loop_bound crc [] lt small = lt
loop_bound crc (d ∷ ds) lt small =
    loop_bound (insert crc d) ds (insert_bound crc d lt (small 0)) (λ i. small (suc i))

loop-append : (crc : ℕ) (xs ys : List ℕ) → loop crc (xs ++ ys) ≡ loop (loop crc xs) ys
loop-append crc [] ys = refl
loop-append crc (x ∷ xs) ys = loop-append (insert crc x) xs ys

-- The checksum of data in two parts, from any state of 32 bits, is that of the second part from the
-- checksum of the first.
crc32c_update-append :
    (crc : ℕ) (xs ys : List ℕ)
    → crc < 4294967296
    → ((i : ℕ) → get_or xs i 0 < 256)
    → crc32c_update (crc32c_update crc xs) ys ≡ crc32c_update crc (xs ++ ys)
unfolding crc32c_update
crc32c_update-append crc xs ys lt small =
    let b = loop_bound (complement crc) xs (omega arith) small in
    let back : complement (complement (loop (complement crc) xs)) ≡ loop (complement crc) xs =
      omega arith in
    ap (λ k. complement (loop k ys)) back ∙ ap complement (sym (loop-append (complement crc) xs ys))
