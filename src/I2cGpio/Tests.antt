-- ===== src/I2cGpio/Tests.antt =====
-- An expander behind a bus, runs of I2cGpio's functions, and the property of its modules at it.
use picore.Base.{
  ℕ, ◌+◌, ◌-◌, ◌==◌, ==_iff, ◌≡◌, ◌≢◌, refl, ◌∙◌, arith, true, List, [], ◌∷◌, bit_or, all_below,
  all_below_lem, if◌then◌else◌,
}
use picore.Error.{Error, ok, address}
use picore.I2cGpio.{Gpio, pca9575, init, pca9575_set, pca9575_oe}
use picore.I2cGpio.Registers.{IsExpander, Masked, Matches, set-oe-Matches}

abbrev store : (ℕ → ℕ) → ℕ → ℕ → ℕ → ℕ
store regs reg value r = if r == reg then value else regs r

abbrev chip_write : ℕ → List ℕ → (ℕ → ℕ) → Error × (ℕ → ℕ)
chip_write saddr [] regs = (address, regs)
chip_write saddr (r ∷ []) regs = (ok, regs)
chip_write saddr (r ∷ v ∷ []) regs = (ok, store regs r v)
chip_write saddr (r ∷ v ∷ u ∷ vs) regs = (ok, store (store regs (r - 128) v) (r - 128 + 1) u)

abbrev no_read : ℕ → List ℕ → ℕ → (ℕ → ℕ) → Error × List ℕ × (ℕ → ℕ)
no_read saddr command n regs = (address, [], regs)

high_bits : all_below 128 (λ r. bit_or 128 r == 128 + r) ≡ true
unfolding all_below
high_bits = refl

store_self : (regs : ℕ → ℕ) (reg value : ℕ) → store regs reg value reg ≡ value
store_self regs reg value = ground arith

store_other : (regs : ℕ → ℕ) (reg value r : ℕ) → r ≢ reg → store regs reg value r ≡ regs r
store_other regs reg value r ne = ground (arith, ne)

chip-IsExpander : IsExpander chip_write no_read 32 (λ regs. regs)
chip-IsExpander = record {
  one = λ reg value w lt lt'. (refl, store_self w reg value, λ r ne. store_other w reg value r ne);
  two = λ reg low high w lt lt' lt2.
      let high_bit : bit_or 128 reg - 128 ≡ reg = omega (
        arith,
        (==_iff _ _).0
            (all_below_lem 128 (λ r. bit_or 128 r == 128 + r) reg high_bits (omega arith)),
      ) in
      rw high_bit (
        refl,
        store_other (store w reg low) (reg + 1) high reg (omega arith) ∙ store_self w reg low,
        store_self (store w reg low) (reg + 1) high,
        λ r p q. store_other (store w reg low) (reg + 1) high r q ∙ store_other w reg low r p,
      );
}

-- The registers as they are after a reset.
abbrev after_reset : ℕ → ℕ
after_reset r = if r == 8 then 255 else (if r == 9 then 255 else 0)

abbrev fresh : Gpio
fresh = (init pca9575 32).1

set-oe-Matches_example :
    (let (err, g', w') = pca9575_set chip_write no_read fresh 769 1025 after_reset in
      (err ≡ ok)
      × Masked 0 769 1025 g'.set_cache
      × Matches chip_write no_read 32 (λ regs. regs) g' w')
    × (let (err, g', w') = pca9575_oe chip_write no_read fresh 769 1025 after_reset in
        (err ≡ ok)
        × Masked 0 769 1025 g'.oe_cache
        × Matches chip_write no_read 32 (λ regs. regs) g' w')
set-oe-Matches_example =
    set-oe-Matches chip_write no_read 32 (λ regs. regs) chip-IsExpander fresh 769 1025 after_reset
      (omega arith) (refl, omega arith, omega arith, (refl, refl), (refl, refl))

-- A request whose write failed is not sent when it is made again: the cache has it already.
abbrev dead_write : ℕ → List ℕ → ℕ → Error × ℕ
dead_write saddr message writes = (address, writes + 1)

abbrev dead_read : ℕ → List ℕ → ℕ → ℕ → Error × List ℕ × ℕ
dead_read saddr command n writes = (address, [], writes)

retry_not_sent :
    let (err, g1, w1) = pca9575_set dead_write dead_read fresh 1 1 0 in
    (err ≡ address) × (w1 ≡ 1) × (pca9575_set dead_write dead_read g1 1 1 w1 ≡ (ok, g1, 1))
unfolding pca9575_set
retry_not_sent = (refl, refl, refl)
