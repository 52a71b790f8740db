-- ===== src/StdioFifo/Streams.antt =====
-- What the standard streams of src/stdio_fifo/stdio_fifo.c do to the FIFOs.
use picore.Base.{
  ℕ, ◌<◌, ◌≡◌, ◌≢◌, ◌==◌, refl, sym, subst, ap, ◌∙◌, arith, true, false, Option, none, some, List,
  ◌++◌, length, take, min,
}
use picore.Fifo.{Fifo}
use picore.Fifo.Inv.{IsValid}
use picore.Fifo.Contents.{contents}
use picore.Fifo.Write.{write-Done}
use picore.StdioFifo.{put_fifo, out_chars, driver_bind}

put_fifo_self : (fifos : ℕ → Fifo) (p : ℕ) (f : Fifo) → put_fifo fifos p f p ≡ f
put_fifo_self fifos p f = let same : (p == p) ≡ true = ground arith in rw same refl

put_fifo_other : (fifos : ℕ → Fifo) (p q : ℕ) (f : Fifo) → q ≢ p → put_fifo fifos p f q ≡ fifos q
put_fifo_other fifos p q f ne = let other : (q == p) ≡ false = ground (arith, ne) in rw other refl

module _ {W : Type 0} (exec : Option ℕ → W → W) where
  abbrev stored : ℕ → (ℕ → Fifo) → Option (ℕ × Fifo × W) → Option ((ℕ → Fifo) × W)
  stored p fifos result = elim result [
    | none ↦ none
    | some (taken, f, w') ↦ some (put_fifo fifos p f, w')
  ]

  -- Text written, once the streams are bound, to a valid FIFO into which no one else writes is taken
  -- as far as there is room: the FIFO ends in as much of its beginning as fits, the rest is lost, and
  -- no other FIFO changes.
  pub out_chars-bind :
      (enable : W → W) (p : ℕ) (fifo_stdin : Option ℕ) (fifos : ℕ → Fifo) (buf : List ℕ) (w : W)
      → IsValid (fifos p) 0 0
      → length buf < 4294967296
      → let (driver, w1) = driver_bind enable (some p) fifo_stdin w in
        (fifos' : ℕ → Fifo) × (w' : W) × (out_chars exec driver fifos buf w1 ≡ some (fifos', w'))
        × (contents (fifos' p) ≡ contents (fifos p) ++ take (min (length buf) (fifos p).free) buf)
        × IsValid (fifos' p) 0 0
        × ((q : ℕ) → q ≢ p → fifos' q ≡ fifos q)
  unfolding out_chars driver_bind
  out_chars-bind enable p fifo_stdin fifos buf w valid small =
      let d = write-Done exec (fifos p) (enable w) buf (length buf) valid small (omega arith) in
      let self = put_fifo_self fifos p d.after in
      (
        put_fifo fifos p d.after,
        d.world,
        ap (stored p fifos) d.returns,
        ap contents self ∙ d.appended,
        subst (λ f. IsValid f 0 0) (sym self) d.valid,
        λ q ne. put_fifo_other fifos p q d.after ne,
      )
