-- ===== src/Base/Window.antt =====
-- Bytes of a circular buffer: `window` goes round at `size`, `slice` is contiguous memory, and
-- `blit` is `memcpy` into it.
use Prim.Native.Nat.{ℕ, zero, suc, ◌+◌, ◌-◌, ◌%◌, ◌≤◌, ◌<◌}
use mathlib.Core.Path.{◌≡◌, refl, sym, ◌∙◌, ap, ap₂}
use mathlib.Core.Logic.{◌≢◌}
use mathlib.Core.List.{List, [], ◌∷◌, ◌++◌, append_assoc, append-nil}
use native.Mathlib.Nat.{mod-add-mod, mod-eq_of_lt, mod-eq-sub-mod, add-zero, zero-add, suc-add}
use native.Mathlib.Decide.{dec_lt}
use native.Mathlib.Numerals.{add-one}
use native.Mathlib.Omega.{arith}
use picore.Base.Lists.{
  length, get_or, set, take, take-set, length-set, get_or-set_self, get_or-set_ne,
}

-- `n` consecutive cells from index `i` on.
abbrev pub slice : List ℕ → ℕ → ℕ → List ℕ
slice buf i zero = []
slice buf i (suc n) = get_or buf i 0 ∷ slice buf (i + 1) n

-- `memcpy(buf + i, xs, length xs)`.
abbrev pub blit : List ℕ → ℕ → List ℕ → List ℕ
blit buf i [] = buf
blit buf i (x ∷ xs) = blit (set buf i x) (i + 1) xs

-- The `n` cells from index `h` on, going round at `size`.
abbrev pub window : List ℕ → ℕ → ℕ → ℕ → List ℕ
window buf size h zero = []
window buf size h (suc n) = get_or buf h 0 ∷ window buf size ((h + 1) % size) n

pub length-window : (buf : List ℕ) (size h n : ℕ) → length (window buf size h n) ≡ n
length-window buf size h zero = refl
length-window buf size h (suc n) = ap suc (length-window buf size ((h + 1) % size) n)

pub length-slice : (buf : List ℕ) (i n : ℕ) → length (slice buf i n) ≡ n
length-slice buf i zero = refl
length-slice buf i (suc n) = ap suc (length-slice buf (i + 1) n)

pub length-blit : (buf : List ℕ) (i : ℕ) (xs : List ℕ) → length (blit buf i xs) ≡ length buf
length-blit buf i [] = refl
length-blit buf i (x ∷ xs) = length-blit (set buf i x) (i + 1) xs ∙ length-set buf i x

pub blit-append :
    (buf : List ℕ) (i : ℕ) (xs ys : List ℕ)
    → blit (blit buf i xs) (i + length xs) ys ≡ blit buf i (xs ++ ys)
blit-append buf i [] ys = ap (λ k. blit buf k ys) (omega arith)
blit-append buf i (x ∷ xs) ys =
    ap (λ k. blit (blit (set buf i x) (i + 1) xs) k ys) (omega arith)
    ∙ blit-append (set buf i x) (i + 1) xs ys

pub take-blit_at :
    (buf : List ℕ) (i : ℕ) (xs : List ℕ)
    → i + length xs ≤ length buf
    → take (i + length xs) (blit buf i xs) ≡ take i buf ++ xs
take-blit_at buf i [] le = ap (λ k. take k buf) (omega arith) ∙ sym (append-nil (take i buf))
take-blit_at buf i (x ∷ xs) le =
    let next : i + suc (length xs) ≡ i + 1 + length xs = omega arith in
    let one : i + 1 ≡ suc i = omega arith in
    ap (λ k. take k (blit (set buf i x) (i + 1) xs)) next
    ∙ take-blit_at (set buf i x) (i + 1) xs (rw length-set (omega arith))
    ∙ ap (λ k. take k (set buf i x) ++ xs) one
    ∙ ap (λ l. l ++ xs) (take-set i buf x (omega arith))
    ∙ append_assoc (take i buf) (x ∷ []) xs

-- What is copied to the start of a buffer that holds it is read back from there.
pub take-blit : (buf xs : List ℕ) → length xs ≤ length buf → take (length xs) (blit buf 0 xs) ≡ xs
take-blit buf xs le =
    ap (λ k. take k (blit buf 0 xs)) (omega arith) ∙ take-blit_at buf 0 xs (omega arith)

-- Fewer than `size` steps round the ring do not come back to the start.
add-mod-ne : {size h k : ℕ} → h < size → suc k < size → (h + suc k) % size ≢ h
add-mod-ne {size} {h} {k} hh hk = elim (dec_lt (h + suc k) size) [
  | yes p ↦ omega (arith, mod-eq_of_lt p)
  | no p ↦ omega (
    arith,
    mod-eq-sub-mod {n = h + suc k} {m = size} (omega arith),
    mod-eq_of_lt {n = h + suc k - size} {m = size} (omega arith),
  )
]

shift : (h n size : ℕ) → (h + suc n) % size ≡ ((h + 1) % size + n) % size
shift h n size = rw mod-add-mod (ap (λ k. k % size) (omega arith))

-- Writing just past a window extends it by that cell.
pub window-set :
    (buf : List ℕ) (size x n h i : ℕ)
    → size ≤ length buf
    → h < size
    → n < size
    → i ≡ (h + n) % size
    → window (set buf i x) size h (suc n) ≡ window buf size h n ++ (x ∷ [])
window-set buf size x zero h i hs hh hn e =
    rw (e, add-zero, mod-eq_of_lt hh, get_or-set_self buf h x 0 (omega arith))
window-set buf size x (suc n) h i hs hh hn e =
    ap₂ ◌∷◌ (get_or-set_ne buf x 0 (rw e (add-mod-ne hh hn))) (
      window-set buf size x n ((h + 1) % size) i hs (omega arith) (omega arith)
        (e ∙ shift h n size))

-- A window splits at any point.
pub window-add :
    (buf : List ℕ) (size h n m : ℕ)
    → h < size
    → window buf size h (n + m) ≡ window buf size h n ++ window buf size ((h + n) % size) m
window-add buf size h zero m hh =
    let e : (h + 0) % size ≡ h = rw add-zero (mod-eq_of_lt hh) in rw (e, zero-add)
window-add buf size h (suc n) m hh =
    rw (suc-add, window-add buf size ((h + 1) % size) n m (omega arith), ← shift h n size)

-- A window that does not go round is a slice.
pub window-slice :
    (buf : List ℕ) (size h n : ℕ) → h + n ≤ size → window buf size h n ≡ slice buf h n
window-slice buf size h zero e = refl
window-slice buf size h (suc zero) e = refl
window-slice buf size h (suc (suc n)) e =
    let one : (h + 1) % size ≡ h + 1 = mod-eq_of_lt (omega arith) in
    ap (λ l. get_or buf h 0 ∷ l) (rw one (window-slice buf size (h + 1) (suc n) (omega arith)))

next-index : (h n i size : ℕ) → i + 1 < size → i ≡ (h + n) % size → i + 1 ≡ (h + suc n) % size
next-index h n i size lt e =
    sym (mod-eq_of_lt lt)
    ∙ ap (λ k. (k + 1) % size) e
    ∙ mod-add-mod (h + n) size 1
    ∙ ap (λ k. k % size) (omega arith)

shift-len : (n k : ℕ) → suc n + k ≡ n + suc k
shift-len n k = omega arith

-- `memcpy` of a contiguous piece just past a window extends the window by it.
pub window-blit :
    (buf : List ℕ) (size : ℕ) (xs : List ℕ) (n h i : ℕ)
    → size ≤ length buf
    → h < size
    → n + length xs ≤ size
    → i + length xs ≤ size
    → i ≡ (h + n) % size
    → window (blit buf i xs) size h (n + length xs) ≡ window buf size h n ++ xs
window-blit buf size [] n h i hs hh hn hi e = rw (add-zero, append-nil)
window-blit buf size (x ∷ []) n h i hs hh hn hi e =
    rw add-one (window-set buf size x n h i hs hh (omega arith) e)
window-blit buf size (x ∷ y ∷ xs) n h i hs hh hn hi e =
    rw
      (
        ← append_assoc (window buf size h n) (x ∷ []) (y ∷ xs),
        ← window-set buf size x n h i hs hh (omega arith) e,
      )
      (rw (← shift-len n (length (y ∷ xs))) (
        window-blit (set buf i x) size (y ∷ xs) (suc n) h (i + 1) (rw length-set hs) hh
          (omega arith) (omega arith) (next-index h n i size (omega arith) e)))
