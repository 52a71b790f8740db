-- ===== src/StdioFifo.antt =====
-- src/stdio_fifo/stdio_fifo.c: the standard streams over two FIFOs. The FIFOs are a store; `exec` is
-- `pr_task_exec`, and enabling the driver in the SDK acts on a state `W`.
pub mod Streams
mod Tests
use picore.Base.{ℕ, ◌==◌, Option, none, some, List, [], if◌then◌else◌, length}
use picore.Fifo as Fifo
use picore.Fifo.{Fifo}

-- `struct pr_stdio_driver`, less the SDK's part; a FIFO is a handle, and `none` is NULL.
pub record Driver : Type 0 where
  pub fifo_stdout : Option ℕ
  pub fifo_stdin : Option ℕ

abbrev pub put_fifo : (ℕ → Fifo) → ℕ → Fifo → ℕ → Fifo
put_fifo fifos p f q = if q == p then f else fifos q

module _ {W : Type 0} (exec : Option ℕ → W → W) where
  -- `pr_stdio_fifo_out_chars`, which drops the number of bytes that the FIFO took. `none` is a load
  -- through NULL, which `pr_fifo_write` and `pr_fifo_read` make unless there is nothing to move.
  abbrev pub out_chars_at : Option ℕ → (ℕ → Fifo) → List ℕ → W → Option ((ℕ → Fifo) × W)
  out_chars_at none fifos buf w = if length buf == 0 then some (fifos, w) else none
  out_chars_at (some p) fifos buf w = elim (Fifo.write exec (fifos p) w buf (length buf)) [
    | none ↦ none
    | some (taken, f, w') ↦ some (put_fifo fifos p f, w')
  ]

  unfoldable pub out_chars : Driver → (ℕ → Fifo) → List ℕ → W → Option ((ℕ → Fifo) × W)
  out_chars driver fifos buf w = out_chars_at driver.fifo_stdout fifos buf w

  -- `pr_stdio_fifo_in_chars`; `outer` and `fuel` are those of `pr_fifo_read`.
  abbrev pub in_chars_at :
      (ℕ → ℕ) → ℕ → Option ℕ → (ℕ → Fifo) → ℕ → W → Option (List ℕ × (ℕ → Fifo) × W)
  in_chars_at outer fuel none fifos len w = if len == 0 then some ([], fifos, w) else none
  in_chars_at outer fuel (some p) fifos len w = elim (Fifo.read exec outer fuel (fifos p) w len) [
    | none ↦ none
    | some (bytes, f, w') ↦ some (bytes, put_fifo fifos p f, w')
  ]

  unfoldable pub in_chars :
      (ℕ → ℕ) → ℕ → Driver → (ℕ → Fifo) → ℕ → W → Option (List ℕ × (ℕ → Fifo) × W)
  in_chars outer fuel driver fifos len w = in_chars_at outer fuel driver.fifo_stdin fifos len w

  abbrev pub out_flush : W → W
  out_flush w = w

-- `pr_stdio_fifo_driver_bind`
unfoldable pub driver_bind : {W : Type 0} → (W → W) → Option ℕ → Option ℕ → W → Driver × W
driver_bind stdio_set_driver_enabled fifo_stdout fifo_stdin w =
    (record { fifo_stdout = fifo_stdout; fifo_stdin = fifo_stdin }, stdio_set_driver_enabled w)
