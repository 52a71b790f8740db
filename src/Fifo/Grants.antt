-- ===== src/Fifo/Grants.antt =====
-- What the two phases of an access to src/fifo/fifo.c's FIFO leave alone: a prepare the bytes stored, a
-- done of nothing everything.
use picore.Base.{ℕ, ◌≡◌, ◌==◌, refl, ◌⊎◌, inl, inr, true, false, Bool-cases, Option}
use picore.Fifo.{Fifo, read_size, read_prepare, read_done, write_done}

pub read_prepare_buffer : (f : Fifo) (n : ℕ) → (read_prepare f n).fifo.buffer ≡ f.buffer
unfolding read_prepare
read_prepare_buffer f n = elim (Bool-cases (read_size f n == 0)) [
  | inl nothing ↦ rw nothing refl
  | inr some_bytes ↦ rw some_bytes refl
]

module _ {W : Type 0} (exec : Option ℕ → W → W) (f : Fifo) (n : ℕ) (w : W) where
  pub read_done-wakes :
      ((n == 0) ≡ true) × (read_done exec f n w ≡ (f, w))
      ⊎ ((n == 0) ≡ false) × ((read_done exec f n w).1 ≡ exec f.producer w)
  unfolding read_done
  read_done-wakes = elim (Bool-cases (n == 0)) [
    | inl nothing ↦ inl (nothing, rw nothing refl)
    | inr some_bytes ↦ inr (some_bytes, rw some_bytes refl)
  ]

  pub write_done-wakes :
      ((n == 0) ≡ true) × (write_done exec f n w ≡ (f, w))
      ⊎ ((n == 0) ≡ false) × ((write_done exec f n w).1 ≡ exec f.consumer w)
  unfolding write_done
  write_done-wakes = elim (Bool-cases (n == 0)) [
    | inl nothing ↦ inl (nothing, rw nothing refl)
    | inr some_bytes ↦ inr (some_bytes, rw some_bytes refl)
  ]
