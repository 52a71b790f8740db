-- ===== src/Fifo/Inv.antt =====
-- The representation invariant of `struct pr_fifo`, with the bytes that are granted to a reader
-- and a writer between prepare and done counted in.
use native.Mathlib.Nat.{mod-add-mod, mod-eq_of_lt, mod_self}
use native.Mathlib.Decide.{ℕ_discrete}
use picore.Base.{
  ℕ, ◌+◌, ◌-◌, ◌%◌, ◌≤◌, ◌<◌, ◌≡◌, ◌∙◌, sym, ap, min, arith, List, length, some, Option,
  length-blit, sub32,
}
use picore.Fifo.{
  Fifo, init, clear, advance, claim, reserve, read_size, write_size, read_prepare, write_prepare,
  read_done, write_done, store,
}

-- `r` bytes are granted to the reader and not yet given back, `w` to the writer.
pub record IsValid (f : Fifo) (r w : ℕ) : Type 0 where
  pub storage : f.size ≤ length f.buffer
  pub small : f.size < 4294967296
  pub rptr_in : f.rptr < f.size
  pub wptr_in : f.wptr < f.size
  pub whole : f.used + f.free + r + w ≡ f.size
  pub linked : f.wptr ≡ (f.rptr + f.used + w) % f.size

-- Moving a pointer by a contiguous piece is addition modulo the size.
pub advance-mod :
    (size h n : ℕ) → size < 4294967296 → h < size → h + n ≤ size → advance size h n ≡ (h + n) % size
advance-mod size h n small hh hn = elim (ℕ_discrete (h + n) size) [
  | yes e ↦ ground (arith, mod_self size, ap (λ (t : ℕ). t % size) e)
  | no ne ↦ ground (arith, mod-eq_of_lt {n = h + n} {m = size} (omega arith))
]

-- What `pr_fifo_read_prepare` grants: the longest contiguous piece within the request.
pub read_prepare_count :
    (f : Fifo) (n : ℕ) {r w : ℕ}
    → IsValid f r w
    → (read_prepare f n).count ≡ min n (min f.used (f.size - f.rptr))
unfolding read_prepare
read_prepare_count f n v = ground arith

pub write_prepare_count :
    (f : Fifo) (n : ℕ) {r w : ℕ}
    → IsValid f r w
    → (write_prepare f n).count ≡ min n (min f.free (f.size - f.wptr))
unfolding write_prepare
write_prepare_count f n v = ground arith

-- The pointer after a piece, with the rest of an offset added.
pub advance_offset :
    (size h n rest : ℕ)
    → size < 4294967296
    → h < size
    → h + n ≤ size
    → (advance size h n + rest) % size ≡ (h + n + rest) % size
advance_offset size h n rest small hh hn =
    ap (λ k. (k + rest) % size) (advance-mod size h n small hh hn) ∙ mod-add-mod (h + n) size rest

advance-lt : (size h n : ℕ) → size < 4294967296 → h < size → h + n ≤ size → advance size h n < size
advance-lt size h n small hh hn = ground arith

module _ (f : Fifo) (n : ℕ) {r w : ℕ} (v : IsValid f r w) where
  claim-linked :
      n ≤ f.used
      → f.rptr + n ≤ f.size
      → f.wptr ≡ (advance f.size f.rptr n + sub32 f.used n + w) % f.size
  claim-linked hu hr =
      v.linked
      ∙ ap (λ k. k % f.size) (omega arith)
      ∙ sym (advance_offset f.size f.rptr n (f.used - n + w) v.small v.rptr_in hr)
      ∙ ap (λ k. k % f.size) (omega arith)

  claim-IsValid : n ≤ f.used → f.rptr + n ≤ f.size → IsValid (claim f n) (r + n) w
  claim-IsValid hu hr =
      ground (arith, claim-linked hu hr, advance-lt f.size f.rptr n v.small v.rptr_in hr)

  claim_at :
      n ≤ f.used
      → f.rptr + n ≤ f.size
      → ((claim f n).rptr ≡ (f.rptr + n) % f.size)
        × (((claim f n).rptr + (claim f n).used) % f.size ≡ (f.rptr + f.used) % f.size)
  claim_at hu hr = ground (
    arith,
    advance-mod f.size f.rptr n v.small v.rptr_in hr,
    advance_offset f.size f.rptr n (f.used - n) v.small v.rptr_in hr,
    mod-eq_of_lt {n = f.rptr + 0} {m = f.size} (omega (arith, v.rptr_in)),
  )

  reserve-linked :
      n ≤ f.free
      → f.wptr + n ≤ f.size
      → advance f.size f.wptr n ≡ (f.rptr + f.used + (w + n)) % f.size
  reserve-linked hu hw =
      advance-mod f.size f.wptr n v.small v.wptr_in hw
      ∙ ap (λ k. (k + n) % f.size) v.linked
      ∙ mod-add-mod (f.rptr + f.used + w) f.size n
      ∙ ap (λ k. k % f.size) (omega arith)

  reserve-IsValid : n ≤ f.free → f.wptr + n ≤ f.size → IsValid (reserve f n) r (w + n)
  reserve-IsValid hu hw =
      ground (arith, reserve-linked hu hw, advance-lt f.size f.wptr n v.small v.wptr_in hw)

module _ (f : Fifo) (n : ℕ) {r w : ℕ} (v : IsValid f r w) where
  pub read_prepare-IsValid : IsValid (read_prepare f n).fifo (r + (read_prepare f n).count) w
  unfolding read_prepare
  read_prepare-IsValid = claim-IsValid f (read_size f n) v (ground arith) (ground arith)

  -- The read pointer moves past the piece, and the end of the stored bytes stays where it is.
  pub read_prepare_at :
      let g = read_prepare f n in
      (g.fifo.rptr ≡ (g.offset + g.count) % f.size)
      × ((g.fifo.rptr + g.fifo.used) % f.size ≡ (f.rptr + f.used) % f.size)
  unfolding read_prepare
  read_prepare_at = claim_at f (read_size f n) v (ground arith) (ground arith)

  pub write_prepare-IsValid : IsValid (write_prepare f n).fifo r (w + (write_prepare f n).count)
  unfolding write_prepare
  write_prepare-IsValid = reserve-IsValid f (write_size f n) v (ground arith) (ground arith)

regroup : (a b c d : ℕ) → a + b + (c + d) ≡ a + (b + d) + c
regroup a b c d = omega arith

module _ {W : Type 0} (exec : Option ℕ → W → W) (world : W) (f : Fifo) (n : ℕ) {r w : ℕ} where
  pub read_done-IsValid : IsValid f (r + n) w → IsValid (read_done exec f n world).0 r w
  unfolding read_done
  read_done-IsValid v = ground arith

  pub write_done-IsValid : IsValid f r (w + n) → IsValid (write_done exec f n world).0 r w
  unfolding write_done
  write_done-IsValid v = ground (arith, v.linked ∙ ap (λ k. k % f.size) (regroup f.rptr f.used w n))

pub store-IsValid :
    (f : Fifo) (offset : ℕ) (bytes : List ℕ) {r w : ℕ}
    → IsValid f r w
    → IsValid (store f offset bytes) r w
unfolding store
store-IsValid f offset bytes v = ground (arith, length-blit f.buffer offset bytes)

pub init-IsValid :
    (storage : List ℕ) (size : ℕ) {f : Fifo}
    → size ≤ length storage
    → 0 < size
    → size < 4294967296
    → init (some storage) size ≡ some f
    → IsValid f 0 0
unfolding init
init-IsValid storage size fits pos small e = ground (arith, mod-eq_of_lt {n = 0} {m = size})

pub clear-IsValid : (f : Fifo) → IsValid f 0 0 → IsValid (clear f) 0 0
unfolding clear
clear-IsValid f v = ground (arith, mod-eq_of_lt {n = 0} {m = f.size})
