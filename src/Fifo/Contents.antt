-- ===== src/Fifo/Contents.antt =====
-- The bytes that a FIFO holds, oldest first, and what each operation does to them.
use picore.Base.{
  ℕ, ◌+◌, ◌-◌, ◌%◌, ◌≤◌, ◌<◌, ◌≡◌, ◌∙◌, sym, ap, ap₂, arith, List, [], ◌++◌, length, slice, blit,
  window, length-window, window-add, window-slice, window-blit, Option, append-nil,
}
use picore.Fifo.{
  Fifo, advance, claim, read_size, write_size, read_prepare, write_prepare, read_done, write_done,
  store,
}
use picore.Fifo.Inv.{IsValid, advance-mod}

abbrev pub contents : Fifo → List ℕ
contents f = window f.buffer f.size f.rptr f.used

pub length-contents : (f : Fifo) → length (contents f) ≡ f.used
length-contents f = length-window f.buffer f.size f.rptr f.used

-- The window from a read position splits at a piece that does not go round.
pub window-split :
    (buf : List ℕ) (size h n rest : ℕ)
    → size < 4294967296
    → h < size
    → h + n ≤ size
    → window buf size h (n + rest) ≡ slice buf h n ++ window buf size (advance size h n) rest
window-split buf size h n rest small hh hn =
    window-add buf size h n rest hh
    ∙ ap₂ ◌++◌ (window-slice buf size h n hn)
        (ap (λ k. window buf size k rest) (sym (advance-mod size h n small hh hn)))

module _ (f : Fifo) (n : ℕ) {r w : ℕ} (v : IsValid f r w) where
  claim-contents :
      n ≤ f.used
      → f.rptr + n ≤ f.size
      → contents f ≡ slice f.buffer f.rptr n ++ contents (claim f n)
  claim-contents hu hr =
      ground (arith, window-split f.buffer f.size f.rptr n (f.used - n) v.small v.rptr_in hr)

pub read_prepare-contents :
    (f : Fifo) (n : ℕ) {r w : ℕ}
    → IsValid f r w
    → let g = read_prepare f n in contents f ≡ slice f.buffer g.offset g.count ++ contents g.fifo
unfolding read_prepare
read_prepare-contents f n v = claim-contents f (read_size f n) v (ground arith) (ground arith)

module _ (f : Fifo) (n : ℕ) (bytes : List ℕ) {r : ℕ} (v : IsValid f r 0) where
  blit-contents :
      length bytes ≡ n
      → n ≤ f.free
      → f.wptr + n ≤ f.size
      → window (blit f.buffer f.wptr bytes) f.size f.rptr (f.used + n) ≡ contents f ++ bytes
  blit-contents e hf hw = rw (← e) (
      window-blit f.buffer f.size bytes f.used f.rptr f.wptr v.storage v.rptr_in (omega arith)
        (omega arith) (v.linked ∙ ap (λ k. k % f.size) (omega arith)))

module _ {W : Type 0} (exec : Option ℕ → W → W) (world : W) where
  pub read_done-contents : (f : Fifo) (n : ℕ) → contents (read_done exec f n world).0 ≡ contents f
  unfolding read_done
  read_done-contents f n = ground arith

  pub write_done-contents :
      (f : Fifo) (n : ℕ) (bytes : List ℕ) {r : ℕ}
      → IsValid f r 0
      → let g = write_prepare f n in
        length bytes ≡ g.count
        → contents (write_done exec (store g.fifo g.offset bytes) g.count world).0
          ≡ contents f ++ bytes
  unfolding write_prepare store write_done
  write_done-contents f n [] v e = ground (arith, append-nil (contents f))
  write_done-contents f n bytes v e =
      ground (arith, blit-contents f (write_size f n) bytes v, append-nil (contents f))
