-- ===== src/Fifo/Short.antt =====
-- What a caller of src/fifo/fifo.c loses that gives back less than it was granted, as
-- src/fifo/include/pr/fifo.h allows.
use picore.Base.{ℕ, ◌+◌, ◌-◌, ◌<◌, ◌≡◌, subst, arith, Option, List, length}
use picore.Fifo.{Fifo, read_prepare, write_prepare, read_done, write_done, store}
use picore.Fifo.Inv.{
  IsValid, read_prepare-IsValid, write_prepare-IsValid, read_done-IsValid, write_done-IsValid,
  store-IsValid,
}

-- A FIFO does not count the same bytes as in flight and as not.
not_both : (f : Fifo) (r w : ℕ) → 0 < r + w → IsValid f r w → ¬ IsValid f 0 0
not_both f r w pos v u = omega (arith, v.whole, u.whole)

-- In a valid FIFO with nothing in flight, a write prepare whose piece is filled and committed with fewer
-- bytes than granted leaves the others counted neither as used nor as free, and so does a read prepare
-- whose piece is consumed with fewer bytes than granted: the FIFO is valid with these bytes in flight,
-- and not with nothing in flight, though the piece has been given back.
pub short_done :
    {W : Type 0} (exec : Option ℕ → W → W) (f : Fifo) (world : W) (n k : ℕ) (bytes : List ℕ) (m : ℕ)
    → IsValid f 0 0
    → length bytes < (write_prepare f n).count
    → m < (read_prepare f k).count
    → (let g = write_prepare f n in
        let f' = (write_done exec (store g.fifo g.offset bytes) (length bytes) world).0 in
        IsValid f' 0 (g.count - length bytes) × ¬ IsValid f' 0 0)
      × (let g = read_prepare f k in
          let f' = (read_done exec g.fifo m world).0 in
          IsValid f' (g.count - m) 0 × ¬ IsValid f' 0 0)
short_done exec f world n k bytes m v fewer less =
    let g = write_prepare f n in
    let h = read_prepare f k in
    let filled = store-IsValid g.fifo g.offset bytes (write_prepare-IsValid f n v) in
    let granted : 0 + g.count ≡ g.count - length bytes + length bytes = omega (arith, fewer) in
    let granted' : 0 + h.count ≡ h.count - m + m = omega (arith, less) in
    let short =
      write_done-IsValid exec world (store g.fifo g.offset bytes) (length bytes)
        (subst (λ c. IsValid (store g.fifo g.offset bytes) 0 c) granted filled) in
    let short' =
      read_done-IsValid exec world h.fifo m
        (subst (λ c. IsValid h.fifo c 0) granted' (read_prepare-IsValid f k v)) in
    (
      (short, not_both _ 0 (g.count - length bytes) (omega (arith, fewer)) short),
      (short', not_both _ (h.count - m) 0 (omega (arith, less)) short'),
    )
