-- ===== src/I2cBus/Tests.antt =====
-- The combined transfer of src/i2c_bus/i2c_bus.c on a bus that answers, and on one that does not.
use picore.Base.{ℕ, ◌≡◌, ◌==◌, if◌then◌else◌, ◌⊎◌, refl, Bool, false, List, [], ◌∷◌, length}
use picore.Error.{ok, address, is_ok}
use picore.I2cBus.{Returned, moved, generic, pico_to_pr_err, write_read}
use picore.I2cBus.Transfers.{write_read_complete}

-- Station 0x50 takes everything; the state counts the transfers.
abbrev blocking_write : ℕ → List ℕ → Bool → ℕ → Returned × ℕ
blocking_write saddr bytes nostop w =
    if saddr == 0x50 then (moved (length bytes), w) else (generic, w)

abbrev blocking_read : ℕ → ℕ → Bool → ℕ → Returned × List ℕ × ℕ
blocking_read saddr size nostop w = (moved 2, 7 ∷ 8 ∷ [], 1)

answers : write_read blocking_write blocking_read 0x50 (1 ∷ []) 2 0 ≡ (ok, 7 ∷ 8 ∷ [], 1)
unfolding write_read pico_to_pr_err
answers = refl

silent : write_read blocking_write blocking_read 0x51 (1 ∷ []) 2 0 ≡ (address, [], 0)
unfolding write_read pico_to_pr_err
silent = refl

write_read_complete_example :
    let (err, out, w') = write_read blocking_write blocking_read 0x50 (1 ∷ []) 2 0 in
    ((is_ok err ≡ false) × (err ≡ pico_to_pr_err (moved 1) 1) × (w' ≡ 0))
    ⊎ ((moved 1 ≡ moved 1)
        × (out ≡ 7 ∷ 8 ∷ [])
        × (w' ≡ 1)
        × ((is_ok err ≡ false) ⊎ (moved 2 ≡ moved 2)))
write_read_complete_example = write_read_complete blocking_write blocking_read 0x50 (1 ∷ []) 2 0
