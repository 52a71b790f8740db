-- ===== src/StdioFifo/Tests.antt =====
-- The standard streams over FIFOs of four bytes.
use picore.Base.{ℕ, ◌+◌, ◌≢◌, ◌≡◌, refl, arith, none, some, List, [], ◌∷◌, replicate}
use picore.Fifo.{Fifo}
use picore.Fifo.Inv.{IsValid}
use picore.Fifo.Contents.{contents}
use picore.StdioFifo.{out_chars, driver_bind}
use picore.StdioFifo.Streams.{out_chars-bind}

abbrev streams : ℕ → Fifo
streams p = record {
  consumer = some p;
  producer = none;
  buffer = replicate 4 0;
  size = 4;
  wptr = 0;
  rptr = 0;
  free = 4;
  used = 0;
}

-- "hello": the last letter is lost.
abbrev hello : List ℕ
hello = 0x68 ∷ 0x65 ∷ 0x6c ∷ 0x6c ∷ 0x6f ∷ []

out_chars-bind_example :
    let (driver, w1) = driver_bind (λ w. w + 100) (some 1) none 0 in
    (fifos : ℕ → Fifo) × (w : ℕ) × (out_chars (λ task w. w + 1) driver streams hello w1
      ≡ some (fifos, w))
    × (contents (fifos 1) ≡ 0x68 ∷ 0x65 ∷ 0x6c ∷ 0x6c ∷ [])
    × IsValid (fifos 1) 0 0
    × ((p : ℕ) → p ≢ 1 → fifos p ≡ streams p)
out_chars-bind_example =
    out_chars-bind (λ task w. w + 1) (λ w. w + 100) 1 none streams hello 0 (omega arith)
      (omega arith)

-- Without a FIFO for the standard output, a text is a load through NULL.
unbound :
    (let (driver, w1) = driver_bind (λ w. w) none (some 2) 0 in
      out_chars (λ task w. w + 1) driver streams hello w1)
    ≡ none
unfolding out_chars driver_bind
unbound = refl
