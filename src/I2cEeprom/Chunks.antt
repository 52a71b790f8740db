-- ===== src/I2cEeprom/Chunks.antt =====
-- The chunks of src/i2c_eeprom/eeprom.c's writes, and the pages of the memory.
use picore.Base.{
  ℕ, ◌+◌, ◌-◌, ◌*◌, ◌/◌, ◌%◌, ◌≤◌, ◌<◌, ◌≡◌, ◌≢◌, ◌==◌, ==_iff, false, true, sym, ap, ◌∙◌, arith,
  Bool-cases, inl, inr,
}
use native.Mathlib.Nat.{
  mod-add-mod, zero-add, mod-eq_of_lt, mod-lt, add-mod_left, add-mod_right, mod-mod_of_dvd,
  dvd_iff_mod-eq-zero, div-add-mod, lt_of_mul-lt-mul_left, mul-le-mul_left,
}
use picore.I2cEeprom.{Chip, c24lc08, c24aa64, page_size, step_size, chunk_size}

-- `count` bytes from `start` on do not cross the end of a page.
abbrev pub InPage : Chip → ℕ → ℕ → Type 0
InPage chip start count = start % page_size chip + count ≤ page_size chip

-- Each chunk is at least a byte, ends within the data, and fits in a page, so that the buffer holds
-- it; the last one alone is shorter than the step.
pub chunk_size_bounds :
    (chip : Chip) (addr size offset : ℕ)
    → offset < size
    → size < 65536
    → let count = chunk_size chip addr size offset in
      (0 < count)
      × (offset + count ≤ size)
      × (count ≤ page_size chip)
      × (offset + count < size → count ≡ step_size chip addr)
chunk_size_bounds c24lc08 addr size offset lt small = ground arith
chunk_size_bounds c24aa64 addr size offset lt small = ground arith

-- A run of `d` cells that starts at a multiple of `d` stays in a page that `d` divides.
aligned_in_page :
    (page d start : ℕ) → 0 < d → 0 < page → page % d ≡ 0 → start % d ≡ 0 → start % page + d ≤ page
aligned_in_page page d start pos pos_page pd sd =
    let m = start % page in
    let md : m % d ≡ 0 = mod-mod_of_dvd d start ((dvd_iff_mod-eq-zero d).1 pd) ∙ sd in
    let below : m / d < page / d =
      lt_of_mul-lt-mul_left d (omega (arith, div-add-mod m d, div-add-mod page d)) in
    let steps : d * (m / d + 1) ≤ d * (page / d) = mul-le-mul_left d (omega arith) in
    omega (arith, div-add-mod m d, div-add-mod page d)

pub page_size-pos : (chip : Chip) → 0 < page_size chip
page_size-pos c24lc08 = omega arith
page_size-pos c24aa64 = omega arith

pub step_size-pos : (chip : Chip) (addr : ℕ) → 0 < step_size chip addr
step_size-pos c24lc08 addr = ground arith
step_size-pos c24aa64 addr = ground arith

pub step_size_le : (chip : Chip) (addr : ℕ) → step_size chip addr ≤ page_size chip
step_size_le c24lc08 addr = ground arith
step_size_le c24aa64 addr = ground arith

add_multiples : (a b d : ℕ) → a % d ≡ 0 → b % d ≡ 0 → (a + b) % d ≡ 0
add_multiples a b d e f =
    sym (mod-add-mod a d b) ∙ ap (λ k. (k + b) % d) e ∙ ap (λ k. k % d) (zero-add b) ∙ f

zero-mod_lem : (d : ℕ) → 0 % d ≡ 0
zero-mod_lem d = omega arith

step_size_within :
    (chip : Chip) (addr : ℕ)
    → (addr % page_size chip == 0) ≡ false
    → addr % page_size chip + step_size chip addr ≡ page_size chip
step_size_within c24lc08 addr e = ground arith
step_size_within c24aa64 addr e = ground arith

step_size_start :
    (chip : Chip) (addr : ℕ) → (addr % page_size chip == 0) ≡ true → step_size chip addr ≡ 16
step_size_start chip addr e = ground arith

step_sixteen : (chip : Chip) → page_size chip % 16 ≡ 0
step_sixteen c24lc08 = omega arith
step_sixteen c24aa64 = omega arith

-- The addresses of the chunks are multiples of the step, if the step divides the page.
addr_multiple :
    (chip : Chip) (addr : ℕ)
    → page_size chip % step_size chip addr ≡ 0
    → addr % step_size chip addr ≡ 0
addr_multiple chip addr pd =
    let d = step_size chip addr in
    let page = page_size chip in
    let whole : addr % page % d ≡ addr % d = mod-mod_of_dvd d addr ((dvd_iff_mod-eq-zero d).1 pd) in
    elim (Bool-cases (addr % page == 0)) [
      | inl at_start ↦ sym whole ∙ ap (λ k. k % d) ((==_iff _ _).0 at_start) ∙ zero-mod_lem d
      | inr within ↦
          sym whole
          ∙ sym (add-mod_right (addr % page) d)
          ∙ ap (λ k. k % d) (step_size_within chip addr within)
          ∙ pd
    ]

pub chunk_size_le :
    (chip : Chip) (addr size offset : ℕ) → chunk_size chip addr size offset ≤ step_size chip addr
chunk_size_le chip addr size offset = ground arith

-- Where the step divides the page, each chunk stays in a page.
pub chunk_size-InPage :
    (chip : Chip) (addr size offset : ℕ)
    → page_size chip % step_size chip addr ≡ 0
    → offset % step_size chip addr ≡ 0
    → InPage chip (addr + offset) (chunk_size chip addr size offset)
chunk_size-InPage chip addr size offset pd od =
    let d = step_size chip addr in
    omega (
      arith,
      aligned_in_page (page_size chip) d (addr + offset) (step_size-pos chip addr)
          (page_size-pos chip) pd (add_multiples addr offset d (addr_multiple chip addr pd) od),
      chunk_size_le chip addr size offset,
    )

crosses :
    (page addr d q r : ℕ)
    → 0 < r
    → r < d
    → addr % page + d ≡ page
    → d * q + r ≡ page
    → page < (addr + (q + 1) * d) % page + d
crosses page addr d q r pos lt e f =
    let rest : addr % page + (q + 1) * d ≡ page + (page - r) = omega (arith, e, f) in
    let at : (addr + (q + 1) * d) % page ≡ page - r =
      sym (mod-add-mod addr page ((q + 1) * d))
      ∙ ap (λ k. k % page) rest
      ∙ add-mod_left page (page - r)
      ∙ mod-eq_of_lt (omega arith) in
    omega (arith, at)

-- Where the step of the chunks does not divide the page, the chunk after the steps that fit in the first
-- whole page is of a size that crosses the end of a page, if the data is long enough for it.
chunk_size-crosses :
    (chip : Chip) (addr size : ℕ)
    → let d = step_size chip addr in
      let offset = (page_size chip / d + 1) * d in
      page_size chip % d ≢ 0
      → offset + d ≤ size
      → page_size chip < (addr + offset) % page_size chip + chunk_size chip addr size offset
chunk_size-crosses chip addr size ne le =
    let d = step_size chip addr in
    let page = page_size chip in
    elim (Bool-cases (addr % page == 0)) [
      | inl at_start ↦
          absurd (ne (ap (λ k. page % k) (step_size_start chip addr at_start) ∙ step_sixteen chip))
      | inr within ↦
          let full : chunk_size chip addr size ((page / d + 1) * d) ≡ d = ground (arith, le) in
          rw full (
            crosses page addr d (page / d) (page % d) (omega (arith, ne))
              (mod-lt page (step_size-pos chip addr)) (step_size_within chip addr within)
              (div-add-mod page d))
    ]
