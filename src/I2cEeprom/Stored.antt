-- ===== src/I2cEeprom/Stored.antt =====
-- What src/i2c_eeprom/eeprom.c's writes leave in the memory.
use picore.Base.{
  ℕ, zero, suc, ◌+◌, ◌-◌, ◌≤◌, ◌<◌, ◌≡◌, ◌==◌, ==_iff, refl, sym, ap, subst, ◌∙◌, arith, true,
  false, inl, inr, Bool-cases, List, ◌++◌, length, take, blit,
}
use picore.Error.{Error, ok, is_ok}
use picore.I2cEeprom.{
  Bus, Chip, c24lc08, c24aa64, Eeprom, Locals, chip_size, addr_size, device_saddr, pointer,
  write_retry, poll, finish,
}
use picore.I2cEeprom.Chunks.{InPage}

pub length-pointer : (chip : Chip) (a : ℕ) → length (pointer chip a) ≡ addr_size chip
length-pointer c24lc08 a = refl
length-pointer c24aa64 a = refl

pub chip_size_le : (chip : Chip) → chip_size chip ≤ 8192
chip_size_le c24lc08 = omega arith
chip_size_le c24aa64 = omega arith

module _ {W : Type 0} (bus : Bus W) (e : Eeprom) (mem : W → List ℕ) (busy : W → ℕ) where
  abbrev pub target : ℕ → ℕ
  target a = device_saddr e.chip e.saddr a

  -- The memory behind the bus, as its data sheet has it: `mem` is its content, `busy` the milliseconds left of an
  -- internal write, during which it does not answer; a write in a page stores the bytes and starts an internal write.
  pub record IsMemory : Type 0 where
    pub stored :
        (a : ℕ) (xs : List ℕ) (w : W)
        → InPage e.chip a (length xs)
        → a + length xs ≤ chip_size e.chip
        → busy w ≡ 0
        → let (err, w') = bus.bus_write (target a) (pointer e.chip a ++ xs) w in
          (err ≡ ok) × (mem w' ≡ blit (mem w) a xs) × (busy w' < 128)
    pub nacked :
        (a : ℕ) (message : List ℕ) (w : W)
        → 0 < busy w
        → let (err, w') = bus.bus_write (target a) message w in
          (is_ok err ≡ false) × (mem w' ≡ mem w) × (busy w' ≤ busy w)
    pub polled :
        (a : ℕ) (message : List ℕ) (w : W)
        → let (err, xs, w') = bus.bus_write_read (target a) message 1 w in
          (is_ok err ≡ (busy w == 0)) × (mem w' ≡ mem w) × (busy w' ≤ busy w)
    pub waited :
        (n : ℕ) (w : W)
        → (mem (bus.busy_wait_ms n w) ≡ mem w) × (busy (bus.busy_wait_ms n w) ≤ busy w - n)

  abbrev pub retried : ℕ → ℕ → List ℕ → W → Error × W
  retried left a xs w = write_retry bus left (target a) (pointer e.chip a ++ xs) w

  abbrev pub polling : ℕ → Locals → W → Error × W
  polling left l w = poll bus left e.chip l w

  -- The call ends without an error, `xs` stored at `a` in a memory that held `m`.
  abbrev pub Stores : List ℕ → ℕ → List ℕ → Error × W → Type 0
  Stores m a xs (err, w) = (err ≡ ok) × (mem w ≡ blit m a xs) × (busy w < 128)

  module _ (law : IsMemory) where
    pub write_retry-Stores :
        (left a : ℕ) (xs : List ℕ) (w : W)
        → InPage e.chip a (length xs)
        → a + length xs ≤ chip_size e.chip
        → busy w ≤ left
        → Stores (mem w) a xs (write_retry bus left (target a) (pointer e.chip a ++ xs) w)
    unfolding write_retry
    write_retry-Stores zero a xs w page le idle = law.stored a xs w page le (omega (arith, idle))
    write_retry-Stores (suc left) a xs w page le idle = elim (Bool-cases (busy w == 0)) [
      | inl free ↦
          let done = law.stored a xs w page le ((==_iff _ _).0 free) in rw (ap is_ok done.0) done
      | inr held ↦
          let (err, m, b) = law.nacked a (pointer e.chip a ++ xs) w (ground (arith, held)) in
          let w1 = (bus.bus_write (target a) (pointer e.chip a ++ xs) w).1 in
          let (m', b') = law.waited 1 w1 in
          rw err (
            subst (λ k. Stores k a xs (retried left a xs (bus.busy_wait_ms 1 w1))) (m' ∙ m)
              (write_retry-Stores left a xs (bus.busy_wait_ms 1 w1) page le
                (omega (arith, b, b', idle))))
    ]

    pub poll-keeps :
        (left a : ℕ) (buf : List ℕ) (w : W)
        → busy w ≤ left
        → let (err, w') = polling left (record { device = target a; buf = buf }) w in
          (is_ok err ≡ true) × (mem w' ≡ mem w)
    unfolding poll
    poll-keeps zero a buf w idle =
        let (o, m, b) = law.polled a (take (addr_size e.chip) buf) w in
        (o ∙ (==_iff (busy w) 0).1 (omega (arith, idle)), m)
    poll-keeps (suc left) a buf w idle =
        let (o, m, b) = law.polled a (take (addr_size e.chip) buf) w in
        let (err, xs, w1) = bus.bus_write_read (target a) (take (addr_size e.chip) buf) 1 w in
        let (m', b') = law.waited 1 w1 in
        elim (Bool-cases (busy w == 0)) [
          | inl free ↦ rw (o ∙ free) (o ∙ free, m)
          | inr held ↦
              let (o1, m1) =
                poll-keeps left a (blit buf 1 xs) (bus.busy_wait_ms 1 w1)
                  (ground (arith, b, b', idle, held)) in
              rw (o ∙ held) (o1, m1 ∙ m' ∙ m)
        ]

is_ok-ok : (err : Error) → is_ok err ≡ true → err ≡ ok
is_ok-ok err e = ground (arith, e)

-- Whether the error that the chip's last poll returns is ignored or not.
finish-ok :
    {W : Type 0} (bus : Bus W) (chip : Chip) (l : Locals) (w : W)
    → is_ok (poll bus 127 chip l w).0 ≡ true
    → finish bus chip l w ≡ (ok, (poll bus 127 chip l w).1)
finish-ok bus c24lc08 l w err = refl
finish-ok bus c24aa64 l w err =
    ap (λ r. (r, (poll bus 127 c24aa64 l w).1)) (is_ok-ok (poll bus 127 c24aa64 l w).0 err)

pub finish-keeps :
    {W : Type 0} (bus : Bus W) (e : Eeprom) (mem : W → List ℕ) (busy : W → ℕ)
    (law : IsMemory bus e mem busy) (l : Locals) (a : ℕ) (w : W)
    → l.device ≡ device_saddr e.chip e.saddr a
    → busy w < 128
    → (w' : W) × (finish bus e.chip l w ≡ (ok, w')) × (mem w' ≡ mem w)
finish-keeps bus e mem busy law l a w at idle =
    let (err, m) =
      subst
        (λ d.
          (is_ok (poll bus 127 e.chip (record { device = d; buf = l.buf }) w).0 ≡ true)
          × (mem (poll bus 127 e.chip (record { device = d; buf = l.buf }) w).1 ≡ mem w))
        (sym at) (poll-keeps bus e mem busy law 127 a l.buf w (omega (arith, idle))) in
    ((poll bus 127 e.chip l w).1, finish-ok bus e.chip l w err, m)
