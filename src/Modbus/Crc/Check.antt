-- ===== src/Modbus/Crc/Check.antt =====
-- The checksum that src/modbus/modbus_crc16.c computes, against the test that a receiver makes.
use picore.Base.{
  ℕ, zero, suc, ◌+◌, ◌*◌, ◌/◌, ◌%◌, ◌<◌, ◌≡◌, refl, sym, ap₂, ◌∙◌, ◌↔◌, ◌⊎◌, inl, inr, arith, List,
  [], ◌∷◌, ◌++◌, bit_xor, bit_xor_digit, bit_xor_bound, bit_xor_top, bit_xor-zero, shr, u16, u8,
}
use picore.Modbus.Crc.{
  crc_init, check_state, insert1, insert_bits, insert_byte, crc_update, serialize,
}

parity : (s w : ℕ) → bit_xor s w % 2 ≡ (s + w) % 2
parity s w = omega (arith, bit_xor_digit s w)

shifted : (s : ℕ) → s < 65536 → u16 (shr s 1) ≡ s / 2
shifted s lt = omega arith

insert1_even : (s w : ℕ) → s < 65536 → (s + w) % 2 ≡ 0 → insert1 s w ≡ s / 2
unfolding insert1
insert1_even s w lt e = rw (shifted s lt, parity s w, e) (bit_xor-zero 15 (s / 2) (omega arith))

insert1_odd : (s w : ℕ) → s < 65536 → (s + w) % 2 ≡ 1 → insert1 s w ≡ bit_xor (s / 2) 0xa001
unfolding insert1
insert1_odd s w lt e = rw (shifted s lt, parity s w, e) refl

parity_cases : (n : ℕ) → (n % 2 ≡ 0) ⊎ (n % 2 ≡ 1)
parity_cases n = omega arith

insert1_bound : (s w : ℕ) → s < 65536 → insert1 s w < 65536
insert1_bound s w lt = elim (parity_cases (s + w)) [
  | inl e ↦ rw (insert1_even s w lt e) (omega arith)
  | inr e ↦ rw (insert1_odd s w lt e) (bit_xor_bound 16 (s / 2) 0xa001 (omega arith) (omega arith))
]

-- A result below the top bit tells the bit that was inserted and the state before.
insert1_back :
    (s w : ℕ) → s < 65536 → w < 2 → insert1 s w < 32768 → (w ≡ s % 2) × (insert1 s w ≡ s / 2)
insert1_back s w lt bit small = elim (parity_cases (s + w)) [
  | inl e ↦ (omega arith, insert1_even s w lt e)
  | inr e ↦ absurd (
      omega
        (arith, insert1_odd s w lt e, bit_xor_top 15 (s / 2) 0xa001 (omega arith) (omega arith)))
]

insert_bits_bound : (n b s w : ℕ) → s < 65536 → insert_bits n b s w < 65536
insert_bits_bound zero b s w lt = lt
insert_bits_bound (suc n) b s w lt =
    insert_bits_bound n (b + 1) (insert1 s (shr w b % 2)) w (insert1_bound s (shr w b % 2) lt)

-- Two, four and eight bits, the first in lowest place, and what is left of the state.
two_back :
    (s a b : ℕ)
    → s < 65536
    → a < 2
    → b < 2
    → insert1 (insert1 s a) b < 16384
    → (a + 2 * b ≡ s % 4) × (insert1 (insert1 s a) b ≡ s / 4)
two_back s a b lt la lb small =
    let (q0, q1) = insert1_back (insert1 s a) b (insert1_bound s a lt) lb (omega arith) in
    let (p0, p1) = insert1_back s a lt la (omega arith) in (omega arith, omega arith)

abbrev insert2 : ℕ → ℕ → ℕ → ℕ
insert2 s a b = insert1 (insert1 s a) b

four_back :
    (s a b c d : ℕ)
    → s < 65536
    → a < 2
    → b < 2
    → c < 2
    → d < 2
    → insert2 (insert2 s a b) c d < 4096
    → (a + 2 * b + 4 * c + 8 * d ≡ s % 16) × (insert2 (insert2 s a b) c d ≡ s / 16)
four_back s a b c d lt la lb lc ld small =
    let (q0, q1) =
      two_back (insert2 s a b) c d (insert1_bound (insert1 s a) b (insert1_bound s a lt)) lc ld
        (omega arith) in
    let (p0, p1) = two_back s a b lt la lb (omega arith) in (omega arith, omega arith)

module _ (s w : ℕ) (lt : s < 65536) where
  abbrev bit : ℕ → ℕ
  bit b = shr w b % 2

  byte_next : w ≡ s % 256 → insert_byte s w ≡ s / 256
  unfolding insert_byte
  byte_next e =
      let e0 : insert1 s (bit 0) ≡ s / 2 =
        insert1_even s (bit 0) (omega arith) (omega arith) ∙ omega arith in
      let e1 : insert1 (s / 2) (bit 1) ≡ s / 4 =
        insert1_even (s / 2) (bit 1) (omega arith) (omega arith) ∙ omega arith in
      let e2 : insert1 (s / 4) (bit 2) ≡ s / 8 =
        insert1_even (s / 4) (bit 2) (omega arith) (omega arith) ∙ omega arith in
      let e3 : insert1 (s / 8) (bit 3) ≡ s / 16 =
        insert1_even (s / 8) (bit 3) (omega arith) (omega arith) ∙ omega arith in
      let e4 : insert1 (s / 16) (bit 4) ≡ s / 32 =
        insert1_even (s / 16) (bit 4) (omega arith) (omega arith) ∙ omega arith in
      let e5 : insert1 (s / 32) (bit 5) ≡ s / 64 =
        insert1_even (s / 32) (bit 5) (omega arith) (omega arith) ∙ omega arith in
      let e6 : insert1 (s / 64) (bit 6) ≡ s / 128 =
        insert1_even (s / 64) (bit 6) (omega arith) (omega arith) ∙ omega arith in
      let e7 : insert1 (s / 128) (bit 7) ≡ s / 256 =
        insert1_even (s / 128) (bit 7) (omega arith) (omega arith) ∙ omega arith in
      rw (e0, e1, e2, e3, e4, e5, e6, e7) refl

  abbrev insert4 : ℕ
  insert4 = insert2 (insert2 s (bit 0) (bit 1)) (bit 2) (bit 3)

  byte_back : w < 256 → insert_byte s w < 256 → (w ≡ s % 256) × (insert_byte s w ≡ s / 256)
  unfolding insert_byte
  byte_back wb small =
      let (q0, q1) =
        four_back insert4 (bit 4) (bit 5) (bit 6) (bit 7) (insert_bits_bound 4 0 s w lt)
          (omega arith) (omega arith) (omega arith) (omega arith) (omega arith) in
      let (p0, p1) =
        four_back s (bit 0) (bit 1) (bit 2) (bit 3) lt (omega arith) (omega arith) (omega arith)
          (omega arith) (omega arith) in
      (omega arith, omega arith)

insert_byte_bound : (s w : ℕ) → s < 65536 → insert_byte s w < 65536
unfolding insert_byte
insert_byte_bound s w lt = insert_bits_bound 8 0 s w lt

crc_update_bound : (s : ℕ) (words : List ℕ) → s < 65536 → crc_update s words < 65536
crc_update_bound s [] lt = lt
crc_update_bound s (w ∷ words) lt =
    crc_update_bound (insert_byte s w) words (insert_byte_bound s w lt)

crc_update-append :
    (s : ℕ) (xs ys : List ℕ) → crc_update s (xs ++ ys) ≡ crc_update (crc_update s xs) ys
crc_update-append s [] ys = refl
crc_update-append s (x ∷ xs) ys = crc_update-append (insert_byte s x) xs ys

module _ (s lo hi : ℕ) (lt : s < 65536) where
  trailer_accepted : (lo ∷ hi ∷ []) ≡ serialize s → insert_byte (insert_byte s lo) hi ≡ 0
  trailer_accepted e =
      let l : lo ≡ s % 256 = ground arith in
      let h : hi ≡ s / 256 % 256 = ground arith in
      let b : s / 256 < 65536 = omega arith in
      rw (byte_next s lo lt l, byte_next (s / 256) hi b h) (omega arith)

  trailer_unique :
      lo < 256 → hi < 256 → insert_byte (insert_byte s lo) hi ≡ 0 → (lo ∷ hi ∷ []) ≡ serialize s
  trailer_unique bl bh e =
      let (h0, h1) = byte_back (insert_byte s lo) hi (insert_byte_bound s lo lt) bh (omega arith) in
      let (l0, l1) = byte_back s lo lt bl (omega arith) in ap₂ (λ a b. a ∷ b ∷ []) l0 (omega arith)

-- A frame that ends in two bytes passes the receiver's test if and only if they are the checksum of
-- the others, low byte first.
pub crc_update-check :
    (bytes : List ℕ) (lo hi : ℕ)
    → lo < 256
    → hi < 256
    → (crc_update crc_init (bytes ++ lo ∷ hi ∷ []) ≡ check_state)
      ↔ ((lo ∷ hi ∷ []) ≡ serialize (crc_update crc_init bytes))
crc_update-check bytes lo hi bl bh =
    let s = crc_update crc_init bytes in
    let lt = crc_update_bound crc_init bytes (omega arith) in
    (
      λ e.
          trailer_unique s lo hi lt bl bh
            (sym (crc_update-append crc_init bytes (lo ∷ hi ∷ [])) ∙ e),
      λ e. crc_update-append crc_init bytes (lo ∷ hi ∷ []) ∙ trailer_accepted s lo hi lt e,
    )

pub crc_update-trailer :
    (bytes : List ℕ)
    → crc_update crc_init (bytes ++ serialize (crc_update crc_init bytes)) ≡ check_state
crc_update-trailer bytes =
    let s = crc_update crc_init bytes in
    (crc_update-check bytes (u8 s) (u8 (shr s 8)) (omega arith) (omega arith)).1 refl
