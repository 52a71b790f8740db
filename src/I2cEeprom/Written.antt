-- ===== src/I2cEeprom/Written.antt =====
-- The loop of src/i2c_eeprom/eeprom.c's writes, over a memory that behaves as its data sheet says.
use picore.Base.{
  ℕ, zero, suc, ◌+◌, ◌%◌, ◌≤◌, ◌<◌, ◌≡◌, refl, sym, ap, ◌∙◌, arith, true, false, ◌⊎◌, inl, inr,
  Bool-cases, Option, some, List, [], ◌++◌, length, take, drop, ltb, u16, blit, blit-append,
  take-blit, length-append, length-take, length-drop, length-blit, take-append-drop, drop-drop,
  drop_all,
}
use native.Mathlib.Nat.{add-mod_right}
use picore.Error.{Error, ok, is_ok}
use picore.I2cEeprom.{
  Bus, Eeprom, Locals, chip_size, addr_size, page_size, step_size, chunk_size, device_saddr,
  pointer, prepare, write_loop, write, is_outside,
}
use picore.I2cEeprom.Chunks.{InPage, chunk_size_bounds, chunk_size-InPage}
use picore.I2cEeprom.Stored.{
  IsMemory, Stores, retried, write_retry-Stores, finish-keeps, length-pointer, chip_size_le,
}

blit_chunk :
    (m bytes : List ℕ) (addr offset count : ℕ)
    → length (take count (drop offset bytes)) ≡ count
    → blit
        (blit m (addr + offset) (take count (drop offset bytes)))
        (addr + (offset + count))
        (drop (offset + count) bytes)
      ≡ blit m (addr + offset) (drop offset bytes)
blit_chunk m bytes addr offset count len =
    let piece = take count (drop offset bytes) in
    ap (λ k. blit (blit m (addr + offset) piece) k (drop (offset + count) bytes))
      (omega (arith, len))
    ∙ blit-append m (addr + offset) piece (drop (offset + count) bytes)
    ∙ ap (λ l. blit m (addr + offset) (piece ++ l)) (sym (drop-drop offset count bytes))
    ∙ ap (blit m (addr + offset)) (take-append-drop count (drop offset bytes))

module _ {W : Type 0} (bus : Bus W) (e : Eeprom) (mem : W → List ℕ) (busy : W → ℕ)
    (law : IsMemory bus e mem busy) (addr : ℕ) (bytes : List ℕ)
    (fits : addr + length bytes ≤ chip_size e.chip)
    (divides : page_size e.chip % step_size e.chip addr ≡ 0) where
  abbrev chunk_at : ℕ → ℕ
  chunk_at offset = chunk_size e.chip addr (length bytes) offset

  bounds_at :
      (offset : ℕ)
      → offset < length bytes
      → (0 < chunk_at offset)
        × (offset + chunk_at offset ≤ length bytes)
        × (chunk_at offset ≤ page_size e.chip)
        × (offset + chunk_at offset < length bytes → chunk_at offset ≡ step_size e.chip addr)
  bounds_at offset lt =
      chunk_size_bounds e.chip addr (length bytes) offset lt
        (omega (arith, fits, chip_size_le e.chip))

  abbrev piece_at : ℕ → List ℕ
  piece_at offset = take (chunk_at offset) (drop offset bytes)

  abbrev sending : ℕ → W → Error × W
  sending offset w = retried bus e mem busy 127 (addr + offset) (piece_at offset) w

  length-piece_at :
      (offset : ℕ) → offset < length bytes → length (piece_at offset) ≡ chunk_at offset
  length-piece_at offset lt =
      let (pos, inside, page, full) = bounds_at offset lt in
      omega
        (arith, length-take (chunk_at offset) (drop offset bytes), length-drop offset bytes, inside)

  message_sent :
      (offset : ℕ) (l : Locals)
      → offset < length bytes
      → length l.buf ≡ addr_size e.chip + page_size e.chip
      → take (chunk_at offset + addr_size e.chip) (prepare e addr bytes offset l).buf
        ≡ pointer e.chip (addr + offset) ++ piece_at offset
  message_sent offset l lt room =
      let xs = pointer e.chip (addr + offset) ++ piece_at offset in
      let (pos, inside, page, full) = bounds_at offset lt in
      let whole : chunk_at offset + addr_size e.chip ≡ length xs = omega (
        arith,
        length-append (pointer e.chip (addr + offset)) (piece_at offset),
        length-pointer e.chip (addr + offset),
        length-piece_at offset lt,
      ) in
      ap (λ k. take k (blit l.buf 0 xs)) whole
      ∙ take-blit l.buf xs (omega (arith, whole, room, page))

  -- The loop has ended without an error, the data from `offset` on stored.
  Written : ℕ → W → Option (Error × Locals × W) → Type 0
  Written offset w result =
      (l' : Locals) × (w' : W) × (result ≡ some (ok, l', w'))
      × ((a : ℕ) × (l'.device ≡ device_saddr e.chip e.saddr a))
      × (mem w' ≡ blit (mem w) (addr + offset) (drop offset bytes))
      × (busy w' < 128)

  looped : ℕ → ℕ → Locals → W → Option (Error × Locals × W)
  looped fuel offset l w = write_loop bus fuel e addr bytes offset l w

  piece_stored :
      (offset : ℕ) (w : W)
      → offset < length bytes
      → InPage e.chip (addr + offset) (chunk_at offset)
      → busy w < 128
      → Stores bus e mem busy (mem w) (addr + offset) (piece_at offset) (sending offset w)
  piece_stored offset w lt page idle =
      let (pos, inside, short, full) = bounds_at offset lt in
      write_retry-Stores bus e mem busy law 127 (addr + offset) (piece_at offset) w
        (omega (arith, page, length-piece_at offset lt))
        (omega (arith, length-piece_at offset lt, inside, fits)) (omega (arith, idle))

  round :
      (fuel offset : ℕ) (l : Locals) (w : W)
      → offset < length bytes
      → length l.buf ≡ addr_size e.chip + page_size e.chip
      → InPage e.chip (addr + offset) (chunk_at offset)
      → busy w < 128
      → looped (suc fuel) offset l w
        ≡ looped fuel
            (offset + chunk_at offset)
            (prepare e addr bytes offset l)
            (sending offset w).1
  unfolding looped write_loop
  round fuel offset l w lt room page idle =
      let more : ltb offset (length bytes) ≡ true = ground (arith, lt) in
      let (pos, inside, short, full) = bounds_at offset lt in
      let next : u16 (offset + chunk_at offset) ≡ offset + chunk_at offset =
        omega (arith, inside, fits, chip_size_le e.chip) in
      let (sent, m, b) = piece_stored offset w lt page idle in
      rw (more, write_loop, message_sent offset l lt room, ap is_ok sent, next) refl

  aimed :
      (offset : ℕ) (l : Locals)
      → (offset < length bytes) ⊎ ((a : ℕ) × (l.device ≡ device_saddr e.chip e.saddr a))
      → length bytes ≤ offset
      → (a : ℕ) × (l.device ≡ device_saddr e.chip e.saddr a)
  aimed offset l (inl lt) ge = absurd (omega arith)
  aimed offset l (inr at) ge = at

  next_multiple :
      (offset : ℕ)
      → offset < length bytes
      → offset % step_size e.chip addr ≡ 0
      → offset + chunk_at offset < length bytes
      → (offset + chunk_at offset) % step_size e.chip addr ≡ 0
  next_multiple offset lt mult more =
      let (pos, inside, short, full) = bounds_at offset lt in
      rw (full more) (add-mod_right offset (step_size e.chip addr) ∙ mult)

  write_loop-Written :
      (fuel offset : ℕ) (l : Locals) (w : W)
      → length l.buf ≡ addr_size e.chip + page_size e.chip
      → (offset < length bytes) ⊎ ((a : ℕ) × (l.device ≡ device_saddr e.chip e.saddr a))
      → (offset < length bytes → offset % step_size e.chip addr ≡ 0)
      → offset ≤ length bytes
      → length bytes < fuel + offset
      → busy w < 128
      → Written offset w (looped fuel offset l w)
  unfolding Written looped write_loop
  write_loop-Written zero offset l w room aim mult le lt idle = absurd (omega arith)
  write_loop-Written (suc fuel) offset l w room aim mult le lt idle =
      elim (Bool-cases (ltb offset (length bytes))) [
        | inr done ↦
            let none_left : drop offset bytes ≡ [] = drop_all offset bytes (ground (arith, done)) in
            rw (done, write_loop, none_left)
              (l, w, refl, aimed offset l aim (ground (arith, done)), refl, idle)
        | inl more ↦
            let lt' : offset < length bytes = ground (arith, more) in
            let (pos, inside, short, full) = bounds_at offset lt' in
            let page = chunk_size-InPage e.chip addr (length bytes) offset divides (mult lt') in
            let (sent, m, b) = piece_stored offset w lt' page idle in
            let next = offset + chunk_at offset in
            let (l', w', ends, at, m', b') =
              write_loop-Written fuel next (prepare e addr bytes offset l) (sending offset w).1
                (length-blit l.buf 0 (pointer e.chip (addr + offset) ++ piece_at offset) ∙ room)
                (inr (addr + offset, refl)) (next_multiple offset lt' (mult lt')) inside
                (omega (arith, pos, lt)) b in
            (
              l',
              w',
              round fuel offset l w lt' room page idle ∙ ends,
              at,
              m'
                  ∙ ap (λ k. blit k (addr + next) (drop next bytes)) m
                  ∙ blit_chunk (mem w) bytes addr offset (chunk_at offset)
                      (length-piece_at offset lt'),
              b',
            )
      ]

-- Writing at least one byte, within the memory, from an address whose step divides the page, to a
-- memory that answers again within 127 ms, returns without an error and leaves the data, and nothing
-- else, changed: neither the chunks nor the attempts at them show.
pub write-stored :
    {W : Type 0} (bus : Bus W) (e : Eeprom) (mem : W → List ℕ) (busy : W → ℕ)
    (law : IsMemory bus e mem busy) (l : Locals) (addr : ℕ) (bytes : List ℕ) (w : W)
    → length l.buf ≡ addr_size e.chip + page_size e.chip
    → 0 < length bytes
    → addr + length bytes ≤ chip_size e.chip
    → page_size e.chip % step_size e.chip addr ≡ 0
    → busy w < 128
    → (w' : W) × (write bus e l addr bytes w ≡ some (ok, w')) × (mem w' ≡ blit (mem w) addr bytes)
unfolding write Written looped
write-stored bus e mem busy law l addr bytes w room pos fits divides idle =
    let inside : is_outside e.chip addr (length bytes) ≡ false =
      ground (arith, fits, pos, chip_size_le e.chip) in
    let (l1, w1, ends, (a, at), m, b) =
      write_loop-Written bus e mem busy law addr bytes fits divides (suc (length bytes)) 0 l w room
        (inl pos) (λ lt. omega arith) (omega arith) (omega arith) idle in
    let (w', done, m1) = finish-keeps bus e mem busy law l1 a w1 at b in
    (
      w',
      rw (inside, write, ends) (ap some done),
      m1 ∙ m ∙ ap (λ k. blit (mem w) k bytes) (omega arith),
    )
