-- ===== src/Base/Digits.antt =====
-- The binary digits of a number, and those of what C's `&`, `|` and `~` make of numbers.
use Prim.Native.Nat.{ℕ, zero, suc, ◌+◌, ◌-◌, ◌*◌, ◌/◌, ◌%◌, ◌^◌, ◌<◌, bit_and, bit_or, min}
use mathlib.Core.Path.{◌≡◌, ap, ap₂, ◌∙◌}
use native.Mathlib.Omega.{arith}
use picore.Base.Tests.{◌==◌, if◌then◌else◌}
use picore.Base.Bits.{bit_or_digit}
use picore.Base.Masks.{bit_and_digit, low_digits, pow_pos}

-- The digit at `i`, the lowest at 0.
abbrev pub digit : ℕ → ℕ → ℕ
digit zero x = x % 2
digit (suc i) x = digit i (x / 2)

-- A number of `width` digits keeps those below.
pub digit-mod : (i width x : ℕ) → i < width → digit i (x % 2 ^ width) ≡ digit i x
digit-mod i zero x lt = absurd (omega arith)
digit-mod zero (suc width) x lt = omega (arith, low_digits x width)
digit-mod (suc i) (suc width) x lt =
    let half : x % 2 ^ suc width / 2 ≡ x / 2 % 2 ^ width = omega (arith, low_digits x width) in
    ap (digit i) half ∙ digit-mod i width (x / 2) (omega arith)

-- `(old & ~mask) | (value & mask)` on `width` digits.
abbrev pub merged : ℕ → ℕ → ℕ → ℕ → ℕ
merged width old mask value = bit_or (bit_and old (2 ^ width - 1 - mask)) (bit_and value mask)

module _ (width old mask value : ℕ) (small : mask < 2 ^ suc width) where
  inverted_half : (2 ^ suc width - 1 - mask) / 2 ≡ 2 ^ width - 1 - mask / 2
  inverted_half = omega (arith, small, pow_pos width)

  inverted_low : (2 ^ suc width - 1 - mask) % 2 ≡ 1 - mask % 2
  inverted_low = omega (arith, small, pow_pos width)

  kept_lem :
      bit_and old (2 ^ suc width - 1 - mask)
      ≡ bit_and (old / 2) (2 ^ width - 1 - mask / 2) * 2 + min (old % 2) (1 - mask % 2)
  kept_lem =
      bit_and_digit old (2 ^ suc width - 1 - mask)
      ∙ ap₂ (λ h l. bit_and (old / 2) h * 2 + min (old % 2) l) inverted_half inverted_low

  merged_half :
      merged (suc width) old mask value / 2 ≡ merged width (old / 2) (mask / 2) (value / 2)
  merged_half =
      let a = bit_and old (2 ^ suc width - 1 - mask) in
      let b = bit_and value mask in
      let a' : a / 2 ≡ bit_and (old / 2) (2 ^ width - 1 - mask / 2) = omega (arith, kept_lem) in
      let b' : b / 2 ≡ bit_and (value / 2) (mask / 2) = omega (arith, bit_and_digit value mask) in
      (let d = bit_or_digit a b in
        let half : bit_or a b / 2 ≡ bit_or (a / 2) (b / 2) = omega (arith, d) in half)
      ∙ ap₂ bit_or a' b'

  merged_low :
      merged (suc width) old mask value % 2 ≡ (if mask % 2 == 1 then value % 2 else old % 2)
  merged_low =
      let d = bit_or_digit (bit_and old (2 ^ suc width - 1 - mask)) (bit_and value mask) in
      ground (arith, d, kept_lem, bit_and_digit value mask)

-- Each digit is that of the value where the mask has a 1, and that of the old number elsewhere.
pub digit-merged :
    (i width old mask value : ℕ)
    → i < width
    → mask < 2 ^ width
    → digit i (merged width old mask value)
      ≡ (if digit i mask == 1 then digit i value else digit i old)
digit-merged i zero old mask value lt small = absurd (omega arith)
digit-merged zero (suc width) old mask value lt small = merged_low width old mask value small
digit-merged (suc i) (suc width) old mask value lt small =
    ap (digit i) (merged_half width old mask value small)
    ∙ digit-merged i width (old / 2) (mask / 2) (value / 2) (omega arith) (omega arith)
