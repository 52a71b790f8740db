-- ===== src/I2cBus/Transfers.antt =====
-- When a combined transfer of src/i2c_bus/i2c_bus.c succeeds.
use picore.Base.{
  ℕ, ◌==◌, ◌≡◌, ◌⊎◌, inl, inr, refl, ap, arith, Bool, true, false, List, length, Bool-cases, ==_iff,
}
use picore.Error.{is_ok}
use picore.I2cBus.{Returned, moved, generic, timed_out, negative, pico_to_pr_err, write_read}

complete : (r : Returned) (count : ℕ) → is_ok (pico_to_pr_err r count) ≡ true → r ≡ moved count
unfolding pico_to_pr_err
complete (moved n) count e = elim (Bool-cases (n == count)) [
  | inl same ↦ ap moved ((==_iff n count).0 same)
  | inr other ↦ ground (arith, e, other)
]
complete generic count e = ground (arith, e)
complete timed_out count e = ground (arith, e)
complete negative count e = ground (arith, e)

complete_or :
    (r : Returned) (count : ℕ) → (is_ok (pico_to_pr_err r count) ≡ false) ⊎ (r ≡ moved count)
complete_or r count = elim (Bool-cases (is_ok (pico_to_pr_err r count))) [
  | inl e ↦ inr (complete r count e)
  | inr e ↦ inl e
]

module _ {W : Type 0} (i2c_write_blocking : ℕ → List ℕ → Bool → W → Returned × W)
    (i2c_read_blocking : ℕ → ℕ → Bool → W → Returned × List ℕ × W) (saddr : ℕ) (wdata : List ℕ)
    (rsize : ℕ) (w : W) where
  -- `pr_i2c_bus_write_read` either reports the error of a write that fell short, and does not read;
  -- or all bytes were written, what it returns is what the read left, and success means that all
  -- bytes were read as well.
  pub write_read_complete :
      let (sent, w1) = i2c_write_blocking saddr wdata true w in
      let (got, bytes, w2) = i2c_read_blocking saddr rsize false w1 in
      let (err, out, w') = write_read i2c_write_blocking i2c_read_blocking saddr wdata rsize w in
      ((is_ok err ≡ false) × (err ≡ pico_to_pr_err sent (length wdata)) × (w' ≡ w1))
      ⊎ ((sent ≡ moved (length wdata))
          × (out ≡ bytes)
          × (w' ≡ w2)
          × ((is_ok err ≡ false) ⊎ (got ≡ moved rsize)))
  unfolding write_read
  write_read_complete =
      let (sent, w1) = i2c_write_blocking saddr wdata true w in
      let (got, bytes, w2) = i2c_read_blocking saddr rsize false w1 in
      elim (Bool-cases (is_ok (pico_to_pr_err sent (length wdata)))) [
        | inl e ↦
            inr (complete sent (length wdata) e, rw e refl, rw e refl, rw e (complete_or got rsize))
        | inr e ↦ inl (rw e e, rw e refl, rw e refl)
      ]
