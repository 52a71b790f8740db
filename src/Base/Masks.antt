-- ===== src/Base/Masks.antt =====
-- Laws of C's `&` on unsigned numbers, for the masks of the low and of the high digits.
use Prim.Native.Nat.{
  ℕ, zero, suc, ◌+◌, ◌-◌, ◌*◌, ◌/◌, ◌%◌, ◌^◌, ◌≤◌, ◌<◌, bit_and, min, bit_and-bitwise,
}
use mathlib.Core.Path.{◌≡◌, sym, ap, ◌∙◌}
use native.Mathlib.Nat.{
  div-div-eq-div-mul, div-add-mod, add-mul-mod_self_left, mod-eq_of_lt, mod-lt, mul_comm, mul_assoc,
  pow-suc,
}
use native.Mathlib.Omega.{arith}
use picore.Base.Bits.{digit_count}

zero-bit_and : (b : ℕ) → bit_and 0 b ≡ 0
zero-bit_and b = bit_and-bitwise 0 b

pub bit_and_digit : (a b : ℕ) → bit_and a b ≡ bit_and (a / 2) (b / 2) * 2 + min (a % 2) (b % 2)
bit_and_digit zero b = omega (arith, zero-bit_and b, zero-bit_and (b / 2))
bit_and_digit (suc a) b = omega (
  arith,
  bit_and-bitwise (suc a) b,
  bit_and-bitwise (suc a / 2) (b / 2),
  digit_count (λ y. 0) min a (suc a / 2) (suc a / 2) (b / 2) (omega arith) (omega arith),
)

bit_and-zero_below : (bound a : ℕ) → a ≤ bound → bit_and a 0 ≡ 0
bit_and-zero_below bound zero p = zero-bit_and 0
bit_and-zero_below zero (suc a) p = absurd (omega arith)
bit_and-zero_below (suc bound) (suc a) p =
    omega (arith, bit_and_digit (suc a) 0, bit_and-zero_below bound (suc a / 2) (omega arith))

pub bit_and-zero : (a : ℕ) → bit_and a 0 ≡ 0
bit_and-zero a = bit_and-zero_below a a (omega arith)

pub bit_and-one : (a : ℕ) → bit_and a 1 ≡ a % 2
bit_and-one a = omega (arith, bit_and_digit a 1, bit_and-zero (a / 2))

bit_and_even : (a b : ℕ) → bit_and a (b * 2) ≡ bit_and (a / 2) b * 2
bit_and_even a b =
    let half : b * 2 / 2 ≡ b = omega arith in
    bit_and_digit a (b * 2)
    ∙ ap (λ k. bit_and (a / 2) k * 2 + min (a % 2) (b * 2 % 2)) half
    ∙ omega arith

bit_and_odd : (a b : ℕ) → bit_and a (b * 2 + 1) ≡ bit_and (a / 2) b * 2 + a % 2
bit_and_odd a b =
    let half : (b * 2 + 1) / 2 ≡ b = omega arith in
    bit_and_digit a (b * 2 + 1)
    ∙ ap (λ k. bit_and (a / 2) k * 2 + min (a % 2) ((b * 2 + 1) % 2)) half
    ∙ omega arith

pub pow_pos : (width : ℕ) → 0 < 2 ^ width
pow_pos zero = omega arith
pow_pos (suc width) = omega (arith, pow_pos width)

double_power : (a width : ℕ) → a * 2 ^ suc width ≡ a * 2 ^ width * 2
double_power a width = ap (λ k. a * k) (pow-suc 2 width) ∙ sym (mul_assoc a (2 ^ width) 2)

pub low_digits : (a width : ℕ) → a / 2 % 2 ^ width * 2 + a % 2 ≡ a % 2 ^ suc width
low_digits a width =
    let p = 2 ^ width in
    let q = a / 2 / p in
    let low = a / 2 % p * 2 + a % 2 in
    let whole : a ≡ low + 2 ^ suc width * q = omega (
      arith,
      div-add-mod (a / 2) p,
      mul_comm (2 ^ suc width) q,
      mul_comm p q,
      double_power q width,
    ) in
    let small : low < 2 ^ suc width = omega (arith, mod-lt (a / 2) (pow_pos width)) in
    sym (
      ap (λ k. k % 2 ^ suc width) whole
      ∙ add-mul-mod_self_left low (2 ^ suc width) q
      ∙ mod-eq_of_lt small)

-- A mask of the lowest digits, and one of digits above the lowest.
bit_and-low : (width a : ℕ) → bit_and a (2 ^ width - 1) ≡ a % 2 ^ width
bit_and-low zero a = omega (arith, bit_and-zero a)
bit_and-low (suc width) a =
    let mask : 2 ^ suc width - 1 ≡ (2 ^ width - 1) * 2 + 1 = omega (arith, pow_pos width) in
    ap (bit_and a) mask
    ∙ bit_and_odd a (2 ^ width - 1)
    ∙ omega (arith, bit_and-low width (a / 2), low_digits a width)

bit_and-high : (shift a b : ℕ) → bit_and a (b * 2 ^ shift) ≡ bit_and (a / 2 ^ shift) b * 2 ^ shift
bit_and-high zero a b =
    let out : b * 2 ^ 0 ≡ b = omega arith in
    let same : a / 2 ^ 0 ≡ a = omega arith in
    ap (bit_and a) out ∙ ap (λ k. bit_and k b) (sym same) ∙ omega arith
bit_and-high (suc shift) a b =
    let power : 2 * 2 ^ shift ≡ 2 ^ suc shift = omega arith in
    let further : a / 2 / 2 ^ shift ≡ a / 2 ^ suc shift =
      div-div-eq-div-mul a 2 (2 ^ shift) ∙ ap (λ k. a / k) power in
    ap (bit_and a) (double_power b shift)
    ∙ bit_and_even a (b * 2 ^ shift)
    ∙ ap (λ k. k * 2) (bit_and-high shift (a / 2) b ∙ ap (λ k. bit_and k b * 2 ^ shift) further)
    ∙ sym (double_power (bit_and (a / 2 ^ suc shift) b) shift)

-- The high byte of a 16-bit number.
pub bit_and-high_byte : (a : ℕ) → a < 65536 → bit_and a 65280 ≡ a / 256 * 256
bit_and-high_byte a lt =
    bit_and-high 8 a 255 ∙ ap (λ k. k * 256) (bit_and-low 8 (a / 256) ∙ mod-eq_of_lt (omega arith))
