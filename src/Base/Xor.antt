-- ===== src/Base/Xor.antt =====
-- More laws of C's `^`, from that on digits.
use Prim.Native.Nat.{ℕ, zero, suc, ◌+◌, ◌*◌, ◌/◌, ◌%◌, ◌≤◌, ◌<◌, bit_xor}
use mathlib.Core.Path.{◌≡◌, ap, ap₂, sym, ◌∙◌}
use native.Mathlib.Omega.{arith}
use picore.Base.Bits.{bit_xor_digit, zero-bit_xor}

bit_xor_half :
    (a b : ℕ)
    → (bit_xor a b / 2 ≡ bit_xor (a / 2) (b / 2)) × (bit_xor a b % 2 ≡ (a % 2 + b % 2) % 2)
bit_xor_half a b = omega (arith, bit_xor_digit a b)

bit_xor_assoc_below :
    (n a b c : ℕ) → a ≤ n → b ≤ n → c ≤ n → bit_xor (bit_xor a b) c ≡ bit_xor a (bit_xor b c)
bit_xor_assoc_below zero a b c la lb lc =
    let ea : a ≡ 0 = omega arith in
    ap (λ k. bit_xor (bit_xor k b) c) ea
    ∙ ap (λ k. bit_xor k c) (zero-bit_xor b)
    ∙ sym (zero-bit_xor (bit_xor b c))
    ∙ ap (λ k. bit_xor k (bit_xor b c)) (sym ea)
bit_xor_assoc_below (suc n) a b c la lb lc =
    let rest =
      bit_xor_assoc_below n (a / 2) (b / 2) (c / 2) (omega arith) (omega arith) (omega arith) in
    let (h0, d0) = bit_xor_half a b in
    let (h1, d1) = bit_xor_half b c in
    bit_xor_digit (bit_xor a b) c
    ∙ ap (λ k. bit_xor k (c / 2) * 2 + (bit_xor a b % 2 + c % 2) % 2) h0
    ∙ ap₂ (λ x y. x * 2 + y) rest (omega (arith, d0, d1))
    ∙ ap (λ k. bit_xor (a / 2) k * 2 + (a % 2 + bit_xor b c % 2) % 2) (sym h1)
    ∙ sym (bit_xor_digit a (bit_xor b c))

pub bit_xor_assoc : (a b c : ℕ) → bit_xor (bit_xor a b) c ≡ bit_xor a (bit_xor b c)
bit_xor_assoc a b c =
    bit_xor_assoc_below (a + b + c) a b c (omega arith) (omega arith) (omega arith)

bit_xor-zero_below : (n a : ℕ) → a ≤ n → bit_xor a 0 ≡ a
bit_xor-zero_below zero a le =
    let e : a ≡ 0 = omega arith in ap (λ k. bit_xor k 0) e ∙ zero-bit_xor 0 ∙ sym e
bit_xor-zero_below (suc n) a le =
    omega (arith, bit_xor_digit a 0, bit_xor-zero_below n (a / 2) (omega arith))

pub bit_xor_zero : (a : ℕ) → bit_xor a 0 ≡ a
bit_xor_zero a = bit_xor-zero_below a a (omega arith)

-- An even number has no influence on the lowest digit, and half of it on the others.
pub bit_xor_even :
    (m y : ℕ) → (bit_xor (m * 2) y / 2 ≡ bit_xor m (y / 2)) × (bit_xor (m * 2) y % 2 ≡ y % 2)
bit_xor_even m y =
    let (h, d) = bit_xor_half (m * 2) y in
    let e : m * 2 / 2 ≡ m = omega arith in (h ∙ ap (λ k. bit_xor k (y / 2)) e, omega (arith, d))

-- Digits below those of a multiple of 16.
pub bit_xor_low : (h l : ℕ) → l < 16 → bit_xor (h * 16) l ≡ h * 16 + l
bit_xor_low h l lt =
    let e8 : h * 16 ≡ h * 8 * 2 = omega arith in
    let e4 : h * 8 ≡ h * 4 * 2 = omega arith in
    let e2 : h * 4 ≡ h * 2 * 2 = omega arith in
    let s3 = bit_xor_even (h * 8) l in
    let s2 = bit_xor_even (h * 4) (l / 2) in
    let s1 = bit_xor_even (h * 2) (l / 2 / 2) in
    let s0 = bit_xor_even h (l / 2 / 2 / 2) in
    let none_left : l / 2 / 2 / 2 / 2 ≡ 0 = omega arith in
    let top : bit_xor h (l / 2 / 2 / 2 / 2) ≡ h = ap (bit_xor h) none_left ∙ bit_xor_zero h in
    let x1 : bit_xor (h * 2) (l / 2 / 2 / 2) ≡ h * 2 + l / 2 / 2 / 2 = omega (arith, s0, top) in
    let x2 : bit_xor (h * 4) (l / 2 / 2) ≡ h * 4 + l / 2 / 2 =
      ap (λ k. bit_xor k (l / 2 / 2)) e2 ∙ omega (arith, s1, x1) in
    let x3 : bit_xor (h * 8) (l / 2) ≡ h * 8 + l / 2 =
      ap (λ k. bit_xor k (l / 2)) e4 ∙ omega (arith, s2, x2) in
    ap (λ k. bit_xor k l) e8 ∙ omega (arith, s3, x3)
