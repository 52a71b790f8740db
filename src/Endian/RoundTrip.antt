-- ===== src/Endian/RoundTrip.antt =====
-- What a read of src/endian/include/pr/endian.h returns after a write at the same place.
use picore.Base.{
  ℕ, ◌+◌, ◌*◌, ◌/◌, ◌%◌, ◌<◌, ◌≡◌, ap, ap₂, ◌∙◌, arith, List, length, set, length-set,
  get_or-set_self, get_or-set_ne, bit_or, bit_or_below, bit_or_shift, shl, shr, u8, u16, u32,
}
use picore.Endian.{
  byte, be16_na_read, le16_na_read, be32_na_read, le32_na_read, be16_na_write, le16_na_write,
  be32_na_write, le32_na_write,
}

join16 : (value : ℕ) → value < 65536 → u16 (bit_or (shl (u8 (shr value 8)) 8) (u8 value)) ≡ value
join16 value lt = omega (arith, bit_or_below (u8 (shr value 8)) (u8 value) (omega arith))

-- `x` stands for the bytes above `b` and `c`.
join_two : (x b : ℕ) → b < 256 → bit_or (x * 65536) (b * 256) ≡ (x * 256 + b) * 256
join_two x b lt =
    let p : x * 65536 ≡ x * 256 * 256 = omega arith in
    ap (λ k. bit_or k (b * 256)) p
    ∙ bit_or_shift (x * 256) b
    ∙ ap (λ k. k * 256) (bit_or_below x b lt)

join_three : (x b : ℕ) → b < 256 → bit_or (x * 16777216) (b * 65536) ≡ (x * 256 + b) * 65536
join_three x b lt =
    let p : x * 16777216 ≡ x * 65536 * 256 = omega arith in
    let q : b * 65536 ≡ b * 256 * 256 = omega arith in
    ap₂ bit_or p q
    ∙ bit_or_shift (x * 65536) (b * 256)
    ∙ ap (λ k. k * 256) (join_two x b lt)
    ∙ omega arith

join32 :
    (a b c d : ℕ)
    → a < 256
    → b < 256
    → c < 256
    → d < 256
    → bit_or (bit_or (bit_or (u32 (shl a 24)) (shl b 16)) (shl c 8)) d
      ≡ ((a * 256 + b) * 256 + c) * 256 + d
join32 a b c d la lb lc ld =
    let p : u32 (shl a 24) ≡ a * 16777216 = omega arith in
    ap (λ k. bit_or (bit_or (bit_or k (shl b 16)) (shl c 8)) d) p
    ∙ ap (λ k. bit_or (bit_or k (shl c 8)) d) (join_three a b lb)
    ∙ ap (λ k. bit_or k d) (join_two (a * 256 + b) c lc)
    ∙ bit_or_below ((a * 256 + b) * 256 + c) d ld

-- The bytes of a memory after two stores, and after four.
stored2 :
    (mem : List ℕ) (p x y : ℕ)
    → p + 1 < length mem
    → let m = set (set mem p x) (p + 1) y in (byte m p ≡ x) × (byte m (p + 1) ≡ y)
stored2 mem p x y fits = (
  get_or-set_ne (set mem p x) {i = p + 1} {j = p} y 0 (λ e. omega arith)
      ∙ get_or-set_self mem p x 0 (omega arith),
  get_or-set_self (set mem p x) (p + 1) y 0 (omega (arith, length-set mem p x)),
)

stored4 :
    (mem : List ℕ) (p x y z t : ℕ)
    → p + 3 < length mem
    → let m = set (set (set (set mem p x) (p + 1) y) (p + 2) z) (p + 3) t in
      (byte m p ≡ x) × (byte m (p + 1) ≡ y) × (byte m (p + 2) ≡ z) × (byte m (p + 3) ≡ t)
stored4 mem p x y z t fits =
    let m2 = set (set mem p x) (p + 1) y in
    let m3 = set m2 (p + 2) z in
    let (e0, e1) = stored2 mem p x y (omega arith) in
    let l2 : length m2 ≡ length mem = length-set (set mem p x) (p + 1) y ∙ length-set mem p x in
    let l3 : length m3 ≡ length mem = length-set m2 (p + 2) z ∙ l2 in
    let keep : (j : ℕ) → j < p + 2 → byte (set m3 (p + 3) t) j ≡ byte m2 j = λ j lt.
      get_or-set_ne m3 {i = p + 3} {j = j} t 0 (λ e. omega arith)
      ∙ get_or-set_ne m2 {i = p + 2} {j = j} z 0 (λ e. omega arith) in
    (
      keep p (omega arith) ∙ e0,
      keep (p + 1) (omega arith) ∙ e1,
      get_or-set_ne m3 {i = p + 3} {j = p + 2} t 0 (λ e. omega arith)
          ∙ get_or-set_self m2 (p + 2) z 0 (omega arith),
      get_or-set_self m3 (p + 3) t 0 (omega arith),
    )

module _ (mem : List ℕ) (p value : ℕ) where
  -- A 16-bit value written at a place inside the memory is read back from there, in big-endian and
  -- in little-endian order.
  round_trip16 :
      p + 1 < length mem
      → value < 65536
      → (be16_na_read (be16_na_write mem p value) p ≡ value)
        × (le16_na_read (le16_na_write mem p value) p ≡ value)
  unfolding be16_na_read be16_na_write le16_na_read le16_na_write
  round_trip16 fits lt =
      let (b0, b1) = stored2 mem p (u8 (shr value 8)) (u8 value) fits in
      let (l0, l1) = stored2 mem p (u8 value) (u8 (shr value 8)) fits in
      (
        ap₂ (λ x y. u16 (bit_or (shl x 8) y)) b0 b1 ∙ join16 value lt,
        ap₂ (λ x y. u16 (bit_or (shl x 8) y)) l1 l0 ∙ join16 value lt,
      )

  join_value :
      value < 4294967296
      → {a b c d : ℕ} → a ≡ u8 (shr value 24)
      → b ≡ u8 (shr value 16)
      → c ≡ u8 (shr value 8)
      → d ≡ u8 value
      → bit_or (bit_or (bit_or (u32 (shl a 24)) (shl b 16)) (shl c 8)) d ≡ value
  join_value lt {a} {b} {c} {d} ea eb ec ed =
      join32 a b c d (omega arith) (omega arith) (omega arith) (omega arith) ∙ omega arith

  -- A 32-bit value written at a place inside the memory is read back from there, in big-endian and
  -- in little-endian order.
  pub round_trip32 :
      p + 3 < length mem
      → value < 4294967296
      → (be32_na_read (be32_na_write mem p value) p ≡ value)
        × (le32_na_read (le32_na_write mem p value) p ≡ value)
  unfolding be32_na_read be32_na_write le32_na_read le32_na_write
  round_trip32 fits lt =
      let (b0, b1, b2, b3) =
        stored4 mem p (u8 (shr value 24)) (u8 (shr value 16)) (u8 (shr value 8)) (u8 value) fits in
      let (l0, l1, l2, l3) =
        stored4 mem p (u8 value) (u8 (shr value 8)) (u8 (shr value 16)) (u8 (shr value 24)) fits in
      (join_value lt b0 b1 b2 b3, join_value lt l3 l2 l1 l0)

-- The two orders mirror each other: the bytes of a big-endian write, read as little-endian, are the
-- value with its bytes swapped.
swapped16 :
    (mem : List ℕ) (p value : ℕ)
    → p + 1 < length mem
    → value < 65536
    → le16_na_read (be16_na_write mem p value) p ≡ value % 256 * 256 + value / 256
unfolding be16_na_write le16_na_read
swapped16 mem p value fits lt =
    let (b0, b1) = stored2 mem p (u8 (shr value 8)) (u8 value) fits in
    ap₂ (λ x y. u16 (bit_or (shl x 8) y)) b1 b0
    ∙ omega (arith, bit_or_below (u8 value) (u8 (shr value 8)) (omega arith))

pub be16-kept :
    (mem : List ℕ) (p value : ℕ)
    → (length (be16_na_write mem p value) ≡ length mem)
      × ((i : ℕ) → i < p → byte (be16_na_write mem p value) i ≡ byte mem i)
unfolding be16_na_write
be16-kept mem p value = (
  length-set (set mem p (u8 (shr value 8))) (p + 1) (u8 value)
      ∙ length-set mem p (u8 (shr value 8)),
  λ i lt.
      get_or-set_ne (set mem p (u8 (shr value 8))) {i = p + 1} {j = i} (u8 value) 0
        (λ e. omega arith)
      ∙ get_or-set_ne mem {i = p} {j = i} (u8 (shr value 8)) 0 (λ e. omega arith),
)
