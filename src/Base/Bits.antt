-- ===== src/Base/Bits.antt =====
-- Laws of C's `^` and `|` on unsigned numbers.
use Prim.Native.Nat.{
  ℕ, zero, suc, ◌+◌, ◌*◌, ◌/◌, ◌%◌, ◌^◌, ◌≤◌, ◌<◌, bit_xor, bit_or, digits, differ, max,
  bit_xor-bitwise, bit_or-bitwise,
}
use mathlib.Core.Path.{◌≡◌, refl, sym, ap, ap₂, ◌∙◌}
use native.Mathlib.Nat.{div-div-eq-div-mul}
use native.Mathlib.Omega.{arith}

-- The count of digits does not matter once it covers the first number.
pub digit_count :
    (z : ℕ → ℕ) (f : ℕ → ℕ → ℕ) (n m a b : ℕ) → a ≤ n → a ≤ m → digits z f n a b ≡ digits z f m a b
digit_count z f zero zero zero b p q = refl
digit_count z f zero (suc m) zero b p q = refl
digit_count z f (suc n) zero zero b p q = refl
digit_count z f (suc n) (suc m) zero b p q = refl
digit_count z f zero m (suc a) b p q = absurd (omega arith)
digit_count z f (suc n) zero (suc a) b p q = absurd (omega arith)
digit_count z f (suc n) (suc m) (suc a) b p q =
    omega (arith, digit_count z f n m (suc a / 2) (b / 2) (omega arith) (omega arith))

differ_digits : (x y : ℕ) → x < 2 → y < 2 → differ x y ≡ (x + y) % 2
differ_digits zero y p q = omega arith
differ_digits (suc zero) zero p q = refl
differ_digits (suc zero) (suc zero) p q = refl
differ_digits (suc zero) (suc (suc y)) p q = absurd (omega arith)
differ_digits (suc (suc x)) y p q = absurd (omega arith)

pub zero-bit_xor : (b : ℕ) → bit_xor 0 b ≡ b
zero-bit_xor b = bit_xor-bitwise 0 b

-- The lowest digit, and the others.
pub bit_xor_digit : (a b : ℕ) → bit_xor a b ≡ bit_xor (a / 2) (b / 2) * 2 + (a % 2 + b % 2) % 2
bit_xor_digit zero b = omega (arith, zero-bit_xor b, zero-bit_xor (b / 2))
bit_xor_digit (suc a) b = omega (
  arith,
  bit_xor-bitwise (suc a) b,
  bit_xor-bitwise (suc a / 2) (b / 2),
  digit_count (λ y. y) differ a (suc a / 2) (suc a / 2) (b / 2) (omega arith) (omega arith),
  differ_digits (suc a % 2) (b % 2) (omega arith) (omega arith),
)

pub bit_xor_bound : (width a b : ℕ) → a < 2 ^ width → b < 2 ^ width → bit_xor a b < 2 ^ width
bit_xor_bound zero zero b p q = omega (arith, zero-bit_xor b)
bit_xor_bound zero (suc a) b p q = absurd (omega arith)
bit_xor_bound (suc width) a b p q =
    omega
      (arith, bit_xor_digit a b, bit_xor_bound width (a / 2) (b / 2) (omega arith) (omega arith))

-- A digit above all of the first number's stands in the result.
pub bit_xor_top : (width a b : ℕ) → a < 2 ^ width → 2 ^ width ≤ b → 2 ^ width ≤ bit_xor a b
bit_xor_top zero zero b p q = omega (arith, zero-bit_xor b)
bit_xor_top zero (suc a) b p q = absurd (omega arith)
bit_xor_top (suc width) a b p q =
    omega (arith, bit_xor_digit a b, bit_xor_top width (a / 2) (b / 2) (omega arith) (omega arith))

pub bit_xor-zero : (width a : ℕ) → a < 2 ^ width → bit_xor a 0 ≡ a
bit_xor-zero zero zero p = refl
bit_xor-zero zero (suc a) p = absurd (omega arith)
bit_xor-zero (suc width) a p =
    omega (arith, bit_xor_digit a 0, bit_xor-zero width (a / 2) (omega arith))

pub zero-bit_or : (b : ℕ) → bit_or 0 b ≡ b
zero-bit_or b = bit_or-bitwise 0 b

pub bit_or_digit : (a b : ℕ) → bit_or a b ≡ bit_or (a / 2) (b / 2) * 2 + max (a % 2) (b % 2)
bit_or_digit zero b = omega (arith, zero-bit_or b, zero-bit_or (b / 2))
bit_or_digit (suc a) b = omega (
  arith,
  bit_or-bitwise (suc a) b,
  bit_or-bitwise (suc a / 2) (b / 2),
  digit_count (λ y. y) max a (suc a / 2) (suc a / 2) (b / 2) (omega arith) (omega arith),
)

bit_or-zero_below : (bound a : ℕ) → a ≤ bound → bit_or a 0 ≡ a
bit_or-zero_below bound zero p = refl
bit_or-zero_below zero (suc a) p = absurd (omega arith)
bit_or-zero_below (suc bound) (suc a) p =
    omega (arith, bit_or_digit (suc a) 0, bit_or-zero_below bound (suc a / 2) (omega arith))

or_digit : (a b c : ℕ) → c < 2 → bit_or (a * 2) (b * 2 + c) ≡ bit_or a b * 2 + c
or_digit a b c lt =
    let q : a * 2 / 2 ≡ a = omega arith in
    let r : (b * 2 + c) / 2 ≡ b = omega arith in
    bit_or_digit (a * 2) (b * 2 + c)
    ∙ ap₂ (λ x y. bit_or x y * 2 + max (a * 2 % 2) ((b * 2 + c) % 2)) q r
    ∙ omega arith

or_two : (a b c : ℕ) → c < 4 → bit_or (a * 4) (b * 4 + c) ≡ bit_or a b * 4 + c
or_two a b c lt =
    (let p : a * 4 ≡ a * 2 * 2 = omega arith in
      let q : b * 4 + c ≡ (b * 2 + c / 2) * 2 + c % 2 = omega arith in ap₂ bit_or p q)
    ∙ or_digit (a * 2) (b * 2 + c / 2) (c % 2) (omega arith)
    ∙ omega (arith, or_digit a b (c / 2) (omega arith))

or_four : (a b c : ℕ) → c < 16 → bit_or (a * 16) (b * 16 + c) ≡ bit_or a b * 16 + c
or_four a b c lt =
    (let p : a * 16 ≡ a * 4 * 4 = omega arith in
      let q : b * 16 + c ≡ (b * 4 + c / 4) * 4 + c % 4 = omega arith in ap₂ bit_or p q)
    ∙ or_two (a * 4) (b * 4 + c / 4) (c % 4) (omega arith)
    ∙ omega (arith, or_two a b (c / 4) (omega arith))

-- A number shifted past another does not meet its digits.
pub bit_or_byte : (a b c : ℕ) → c < 256 → bit_or (a * 256) (b * 256 + c) ≡ bit_or a b * 256 + c
bit_or_byte a b c lt =
    (let p : a * 256 ≡ a * 16 * 16 = omega arith in
      let q : b * 256 + c ≡ (b * 16 + c / 16) * 16 + c % 16 = omega arith in ap₂ bit_or p q)
    ∙ or_four (a * 16) (b * 16 + c / 16) (c % 16) (omega arith)
    ∙ omega (arith, or_four a b (c / 16) (omega arith))

pub bit_or_below : (a c : ℕ) → c < 256 → bit_or (a * 256) c ≡ a * 256 + c
bit_or_below a c lt =
    ap (bit_or (a * 256)) (omega arith)
    ∙ bit_or_byte a 0 c lt
    ∙ ap (λ x. x * 256 + c) (bit_or-zero_below a a (omega arith))

pub bit_or_shift : (a b : ℕ) → bit_or (a * 256) (b * 256) ≡ bit_or a b * 256
bit_or_shift a b =
    let p : b * 256 ≡ b * 256 + 0 = omega arith in
    ap (bit_or (a * 256)) p ∙ bit_or_byte a b 0 (omega arith) ∙ omega arith

bit_xor-equal_below : (bound a b : ℕ) → a ≤ bound → bit_xor a b ≡ 0 → a ≡ b
bit_xor-equal_below bound zero b le e = omega (arith, zero-bit_xor b)
bit_xor-equal_below zero (suc a) b le e = absurd (omega arith)
bit_xor-equal_below (suc bound) (suc a) b le e = omega (
  arith,
  bit_xor_digit (suc a) b,
  bit_xor-equal_below bound (suc a / 2) (b / 2) (omega arith)
      (omega (arith, bit_xor_digit (suc a) b)),
)

pub bit_xor-equal : (a b : ℕ) → bit_xor a b ≡ 0 → a ≡ b
bit_xor-equal a b e = bit_xor-equal_below a a b (omega arith) e

-- Numbers that differ below a digit alone are equal from there on.
pub bit_xor-above : (width a b : ℕ) → bit_xor a b < 2 ^ width → a / 2 ^ width ≡ b / 2 ^ width
bit_xor-above zero a b lt = ap (λ k. k / 1) (bit_xor-equal a b (omega arith))
bit_xor-above (suc width) a b lt =
    let power : 2 * 2 ^ width ≡ 2 ^ suc width = omega arith in
    let halves : a / 2 / 2 ^ width ≡ b / 2 / 2 ^ width =
      bit_xor-above width (a / 2) (b / 2) (omega (arith, bit_xor_digit a b)) in
    ap (λ k. a / k) (sym power)
    ∙ sym (div-div-eq-div-mul a 2 (2 ^ width))
    ∙ halves
    ∙ div-div-eq-div-mul b 2 (2 ^ width)
    ∙ ap (λ k. b / k) power
