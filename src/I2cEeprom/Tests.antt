-- ===== src/I2cEeprom/Tests.antt =====
-- A memory behind a bus and a bus that fails, and the properties of I2cEeprom's modules at them.
use picore.Base.{
  ℕ, suc, ◌+◌, ◌*◌, ◌/◌, ◌-◌, ◌%◌, ◌≤◌, ◌==◌, ==_iff, ◌≡◌, refl, ap, arith, true, false, inl, inr,
  Bool-cases, some, List, [], ◌∷◌, length, replicate, blit, if◌then◌else◌,
}
use picore.Error.{Error, ok, address}
use picore.I2cEeprom.{Bus, Eeprom, Locals, c24aa64, write}
use picore.I2cEeprom.Stored.{IsMemory}
use picore.I2cEeprom.Written.{write-stored}
use picore.I2cEeprom.Errors.{Fails, FailsAfter, write-FailsAfter}

-- A memory with 16-bit addresses that takes 5 ms to write.
record Memory : Type 0 where
  cells : List ℕ
  left : ℕ

accept : List ℕ → Memory → Error × Memory
accept (hi ∷ lo ∷ xs) w = (ok, record w { cells = blit w.cells (hi * 256 + lo) xs; left = 5 })
accept (hi ∷ []) w = (ok, w)
accept [] w = (ok, w)

abbrev memory_bus : Bus Memory
memory_bus = record {
  bus_write = λ device message w. if w.left == 0 then accept message w else (address, w);
  bus_write_read = λ device message n w. if w.left == 0 then (ok, 0 ∷ [], w) else (address, [], w);
  busy_wait_ms = λ n w. record w { left = w.left - n };
}

abbrev config : Eeprom
config = record { saddr = 80; chip = c24aa64 }

abbrev garbage : Locals
garbage = record { device = 99; buf = replicate 34 170 }

accept_in :
    (a : ℕ) (xs : List ℕ) (w : Memory)
    → a + length xs ≤ 8192
    → accept (a / 256 % 32 ∷ a % 256 ∷ xs) w
      ≡ (ok, record w { cells = blit w.cells a xs; left = 5 })
unfolding accept
accept_in a [] w le = refl
accept_in a (x ∷ xs) w le =
    let at : a / 256 % 32 * 256 + a % 256 ≡ a = omega arith in
    ap (λ k. (ok, record w { cells = blit w.cells k (x ∷ xs); left = 5 })) at

memory-IsMemory : IsMemory memory_bus config (λ w. w.cells) (λ w. w.left)
memory-IsMemory = record {
  stored = λ a xs w page le idle.
      let free : (w.left == 0) ≡ true = (==_iff w.left 0).1 idle in
      let done = accept_in a xs w le in
      rw free
        (ap (λ r. r.0) done, ap (λ r. r.1.cells) done, omega (arith, ap (λ r. r.1.left) done));
  nacked = λ a message w held.
      let on : (w.left == 0) ≡ false = ground (arith, held) in rw on (refl, refl, omega arith);
  polled = λ a message w. elim (Bool-cases (w.left == 0)) [
    | inl free ↦ rw free (refl, refl, omega arith)
    | inr held ↦ rw held (refl, refl, omega arith)
  ];
  waited = λ n w. (refl, omega arith);
}

abbrev blank : Memory
blank = record { cells = replicate 6 0; left = 3 }

write-stored_example :
    (w' : Memory) × (write memory_bus config garbage 0 (7 ∷ 8 ∷ 9 ∷ []) blank ≡ some (ok, w'))
    × (w'.cells ≡ 7 ∷ 8 ∷ 9 ∷ 0 ∷ 0 ∷ 0 ∷ [])
write-stored_example =
    write-stored memory_bus config (λ w. w.cells) (λ w. w.left) memory-IsMemory garbage 0
      (7 ∷ 8 ∷ 9 ∷ []) blank refl (omega arith) (omega arith) refl (omega arith)

-- A bus on which nothing answers; the state counts the writes.
abbrev dead_bus : Bus ℕ
dead_bus = record {
  bus_write = λ device message w. (address, suc w);
  bus_write_read = λ device message n w. (address, [], w);
  busy_wait_ms = λ n w. w;
}

dead_bus-Fails : Fails dead_bus (λ w. w)
dead_bus-Fails = record { refused = λ device message w. (refl, refl); waited = λ n w. refl }

write-FailsAfter_example :
    (r : Error × ℕ) × (write dead_bus config garbage 64 (1 ∷ 2 ∷ []) 0 ≡ some r)
    × FailsAfter dead_bus (λ w. w) 128 0 r
write-FailsAfter_example =
    write-FailsAfter dead_bus (λ w. w) dead_bus-Fails config garbage 64 (1 ∷ 2 ∷ []) 0 (omega arith)
      (omega arith)
