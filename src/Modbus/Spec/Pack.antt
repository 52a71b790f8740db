-- ===== src/Modbus/Spec/Pack.antt =====
-- Coils packed eight to a byte, the first in the lowest bit, and how a loop that sets one bit at a
-- time packs them.
use picore.Base.{
  ℕ, zero, suc, ◌+◌, ◌-◌, ◌*◌, ◌/◌, ◌%◌, ◌^◌, ◌≤◌, ◌<◌, ◌≡◌, refl, sym, ap, ap₂, ◌∙◌, arith, Bool,
  true, false, inl, inr, Bool-cases, List, [], ◌∷◌, ◌++◌, length, take, drop, replicate, get_or,
  set, if◌then◌else◌, ltb, bit_or, shl, u8, ==_iff, ◌==◌, all_below, all_below_lem, length-append,
  length-drop, take_all, drop_all,
}

-- The number whose binary digits are `bits`, the lowest first.
abbrev pub byte_of : List Bool → ℕ
byte_of [] = 0
byte_of (b ∷ bits) = (if b then 1 else 0) + 2 * byte_of bits

abbrev pub packed : ℕ → List Bool → List ℕ
packed zero bits = []
packed (suc n) bits = byte_of (take 8 bits) ∷ packed n (drop 8 bits)

pow_step : (n : ℕ) → 2 ^ suc n ≡ 2 * 2 ^ n
pow_step n = omega arith

byte_of_bound : (bits : List Bool) → byte_of bits < 2 ^ length bits
byte_of_bound [] = omega arith
byte_of_bound (b ∷ bits) = ground (arith, byte_of_bound bits, pow_step (length bits))

byte_of-snoc :
    (bits : List Bool) (b : Bool)
    → byte_of (bits ++ b ∷ []) ≡ byte_of bits + (if b then 2 ^ length bits else 0)
byte_of-snoc [] b = ground arith
byte_of-snoc (x ∷ bits) true = omega (arith, byte_of-snoc bits true, pow_step (length bits))
byte_of-snoc (x ∷ bits) false = omega (arith, byte_of-snoc bits false)

-- Every byte whose digit `k` and those above are 0, for each `k` below 8.
digit_table :
    all_below 8 (λ k. all_below (2 ^ k) (λ x. u8 (bit_or x (shl 1 k)) == x + 2 ^ k)) ≡ true
unfolding all_below
digit_table = refl

set_digit : (x k : ℕ) → k < 8 → x < 2 ^ k → u8 (bit_or x (shl 1 k)) ≡ x + 2 ^ k
set_digit x k lt small = (==_iff _ _).0 (
    all_below_lem (2 ^ k) (λ y. u8 (bit_or y (shl 1 k)) == y + 2 ^ k) x
      (all_below_lem 8 (λ j. all_below (2 ^ j) (λ y. u8 (bit_or y (shl 1 j)) == y + 2 ^ j)) k
        digit_table lt)
      small)

module _ (n : ℕ) (bits : List Bool) (b : Bool) where
  take-snoc_short : length bits < n → take n (bits ++ b ∷ []) ≡ bits ++ b ∷ []
  take-snoc_short lt = take_all n (bits ++ b ∷ []) (omega (arith, length-append bits (b ∷ [])))

  drop-snoc_short : length bits < n → drop n (bits ++ b ∷ []) ≡ []
  drop-snoc_short lt = drop_all n (bits ++ b ∷ []) (omega (arith, length-append bits (b ∷ [])))

take-snoc_long :
    (n : ℕ) (bits : List Bool) (b : Bool) → n ≤ length bits → take n (bits ++ b ∷ []) ≡ take n bits
take-snoc_long zero bits b le = refl
take-snoc_long (suc n) [] b le = absurd (omega arith)
take-snoc_long (suc n) (x ∷ bits) b le = ap (λ l. x ∷ l) (take-snoc_long n bits b (omega arith))

drop-snoc_long :
    (n : ℕ) (bits : List Bool) (b : Bool)
    → n ≤ length bits
    → drop n (bits ++ b ∷ []) ≡ drop n bits ++ b ∷ []
drop-snoc_long zero bits b le = refl
drop-snoc_long (suc n) [] b le = absurd (omega arith)
drop-snoc_long (suc n) (x ∷ bits) b le = drop-snoc_long n bits b (omega arith)

packed_cong : (n : ℕ) {x y : List Bool} → x ≡ y → packed n x ≡ packed n y
packed_cong n e = ap (packed n) e

pub packed-nil : (n : ℕ) → packed n [] ≡ replicate n 0
packed-nil zero = refl
packed-nil (suc n) = ap (λ l. 0 ∷ l) (packed-nil n)

-- A coil that is off leaves the bytes as they are.
pub packed-off : (n : ℕ) (bits : List Bool) → packed n (bits ++ false ∷ []) ≡ packed n bits
packed-off zero bits = refl
packed-off (suc n) bits = elim (Bool-cases (ltb (length bits) 8)) [
  | inl short ↦
      let lt : length bits < 8 = ground (arith, short) in
      ap₂ (λ x l. x ∷ l)
        (ap byte_of (take-snoc_short 8 bits false lt)
          ∙ byte_of-snoc bits false
          ∙ omega arith
          ∙ ap byte_of (sym (take_all 8 bits (omega arith))))
        (ap (packed n) (drop-snoc_short 8 bits false lt ∙ sym (drop_all 8 bits (omega arith))))
  | inr long ↦
      let le : 8 ≤ length bits = ground (arith, long) in
      ap₂ (λ x l. x ∷ l) (ap byte_of (take-snoc_long 8 bits false le))
        (ap (packed n) (drop-snoc_long 8 bits false le) ∙ packed-off n (drop 8 bits))
]

-- `|= 1 << (i % 8)` on byte `i / 8`
abbrev pub raise : List ℕ → ℕ → List ℕ
raise bytes i = set bytes (i / 8) (u8 (bit_or (get_or bytes (i / 8) 0) (shl 1 (i % 8))))

raise-first :
    (x : ℕ) (bytes : List ℕ) (i : ℕ) → i < 8 → raise (x ∷ bytes) i ≡ u8 (bit_or x (shl 1 i)) ∷ bytes
raise-first x bytes i lt =
    let q : i / 8 ≡ 0 = omega arith in
    let r : i % 8 ≡ i = omega arith in
    ap₂ (λ j k. set (x ∷ bytes) j (u8 (bit_or (get_or (x ∷ bytes) j 0) (shl 1 k)))) q r

raise-cons :
    (x : ℕ) (bytes : List ℕ) (i : ℕ) → 8 ≤ i → raise (x ∷ bytes) i ≡ x ∷ raise bytes (i - 8)
raise-cons x bytes i le =
    let q : i / 8 ≡ suc ((i - 8) / 8) = omega arith in
    let r : i % 8 ≡ (i - 8) % 8 = omega arith in
    ap₂ (λ j k. set (x ∷ bytes) j (u8 (bit_or (get_or (x ∷ bytes) j 0) (shl 1 k)))) q r

-- A coil that is on raises the bit of its number.
pub packed-on :
    (n : ℕ) (bits : List Bool)
    → length bits < n * 8
    → packed n (bits ++ true ∷ []) ≡ raise (packed n bits) (length bits)
packed-on zero bits lt = absurd (omega arith)
packed-on (suc n) bits lt = elim (Bool-cases (ltb (length bits) 8)) [
  | inl short ↦
      let lt : length bits < 8 = ground (arith, short) in
      let whole : take 8 bits ≡ bits = take_all 8 bits (omega arith) in
      let here : byte_of (bits ++ true ∷ []) ≡ u8 (bit_or (byte_of bits) (shl 1 (length bits))) =
        byte_of-snoc bits true
        ∙ sym (set_digit (byte_of bits) (length bits) lt (byte_of_bound bits)) in
      ap₂ (λ x l. x ∷ l)
        (ap byte_of (take-snoc_short 8 bits true lt)
          ∙ here
          ∙ ap (λ l. u8 (bit_or (byte_of l) (shl 1 (length bits)))) (sym whole))
        (ap (packed n) (drop-snoc_short 8 bits true lt ∙ sym (drop_all 8 bits (omega arith))))
      ∙ sym (raise-first (byte_of (take 8 bits)) (packed n (drop 8 bits)) (length bits) lt)
  | inr long ↦
      let le : 8 ≤ length bits = ground (arith, long) in
      let rest : length (drop 8 bits) ≡ length bits - 8 = length-drop 8 bits in
      ap₂ (λ x l. x ∷ l) (ap byte_of (take-snoc_long 8 bits true le))
        (ap (packed n) (drop-snoc_long 8 bits true le)
          ∙ packed-on n (drop 8 bits) (omega (arith, rest))
          ∙ ap (raise (packed n (drop 8 bits))) rest)
      ∙ sym (raise-cons (byte_of (take 8 bits)) (packed n (drop 8 bits)) (length bits) le)
]
