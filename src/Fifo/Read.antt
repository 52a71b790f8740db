-- ===== src/Fifo/Read.antt =====
-- `pr_fifo_read` and `pr_fifo_peek`: which bytes they copy, and when the read loop ends.
use native.Mathlib.Nat.{add-zero, zero-add, sub-zero}
use picore.Base.{
  ℕ, zero, suc, ◌+◌, ◌-◌, ◌≤◌, ◌<◌, ◌≡◌, ◌≢◌, ◌∙◌, ◌⊎◌, inl, inr, sym, ap, subst, min, arith, List,
  [], ◌++◌, take, drop, length, refl, Option, some, none, append-nil, append_assoc, length-slice,
  Bool-cases, ◌==◌, true, false, sub32, length-append, slice, window, take_of_split, take-min,
}
use picore.Fifo.{
  Fifo, read_prepare, read_done, read_round, read_loop, read, read_size, peek, advance,
}
use picore.Fifo.Inv.{IsValid, read_prepare-IsValid, read_done-IsValid}
use picore.Fifo.Contents.{contents, read_prepare-contents, window-split, length-contents}

next_round : (k j : ℕ) → k + 1 + j ≡ k + suc j
next_round k j = omega arith

module _ {W : Type 0} (exec : Option ℕ → W → W) where
  -- One round copies the longest contiguous piece within what is asked and stored.
  pub record Copied (f : Fifo) (w : W) (want w_flight : ℕ) (bytes : List ℕ) (f' : Fifo) (w' : W)
      : Type 0 where
    pub valid : IsValid f' 0 w_flight
    pub count : length bytes ≡ min want (min f.used (f.size - f.rptr))
    pub split : contents f ≡ bytes ++ contents f'
    pub counted : (f'.used + length bytes ≡ f.used) × (f'.free ≡ f.free + length bytes)
    pub kept : (f'.size ≡ f.size) × (f'.producer ≡ f.producer)
    pub woken : (length bytes ≡ 0) × (w' ≡ w) ⊎ (0 < length bytes) × (w' ≡ exec f.producer w)

  module _ (f : Fifo) (w : W) (size done : ℕ) {wf : ℕ} (v : IsValid f 0 wf)
      (small : size < 4294967296) (in_range : done ≤ size) where
    released-IsValid :
        let g = read_prepare f (sub32 size done) in IsValid (read_done exec g.fifo g.count w).0 0 wf
    released-IsValid =
        let g = read_prepare f (sub32 size done) in
        read_done-IsValid exec w g.fifo g.count {r = 0} {w = wf}
          (read_prepare-IsValid f (sub32 size done) v)

    pub read_round-Copied :
        let (bytes, f', w') = read_round exec f w size done in
        Copied f w (size - done) wf bytes f' w'
    unfolding read_round
    read_round-Copied = ground (
      arith,
      released-IsValid,
      length-slice f.buffer f.rptr (read_size f (sub32 size done)),
      read_prepare-contents f (sub32 size done) v,
    )

  -- A normal end of `pr_fifo_read` that has copied `out` before and copies `bytes` in addition.
  pub record Delivered (f : Fifo) (size wf : ℕ) (out : List ℕ) (result : Option (List ℕ × Fifo × W))
      : Type 0 where
    pub bytes : List ℕ
    pub after : Fifo
    pub world : W
    pub returns : result ≡ some (out ++ bytes, after, world)
    pub valid : IsValid after 0 wf
    pub split : contents f ≡ bytes ++ contents after
    pub bounded : length (out ++ bytes) ≤ size

  module _ (outer : ℕ → ℕ) (size : ℕ) {wf : ℕ} (small : size < 4294967296) where
    Delivered-stop :
        (f : Fifo) (w : W) (out : List ℕ) {bytes : List ℕ} {f' : Fifo} {w' : W}
        → length out ≤ size
        → Copied f w (size - length out) wf bytes f' w'
        → Delivered f size wf out (some (out ++ bytes, f', w'))
    Delivered-stop f w out {bytes} {f'} {w'} le one = record {
      bytes = bytes;
      after = f';
      world = w';
      returns = refl;
      valid = one.valid;
      split = one.split;
      bounded = omega (arith, length-append out bytes, one.count);
    }

    Delivered-next :
        (f : Fifo) (w : W) (out : List ℕ) {bytes : List ℕ} {f' : Fifo} {w' : W}
        {result : Option (List ℕ × Fifo × W)}
        → Copied f w (size - length out) wf bytes f' w'
        → Delivered f' size wf (out ++ bytes) result
        → Delivered f size wf out result
    Delivered-next f w out {bytes} {f'} {w'} one rest = record {
      bytes = bytes ++ rest.bytes;
      after = rest.after;
      world = rest.world;
      returns =
          rest.returns
          ∙ ap (λ l. some (l, rest.after, rest.world)) (append_assoc out bytes rest.bytes);
      valid = rest.valid;
      split =
          one.split
          ∙ ap (λ l. bytes ++ l) rest.split
          ∙ sym (append_assoc bytes rest.bytes (contents rest.after));
      bounded = rw (← append_assoc out bytes rest.bytes) rest.bounded;
    }

    -- The loop ends in the round whose test reads 0, if not before.
    read_loop-Delivered :
        (j k : ℕ) (f : Fifo) (w : W) (out : List ℕ)
        → IsValid f 0 wf
        → length out ≤ size
        → outer (k + j) ≡ 0
        → Delivered f size wf out (read_loop exec outer (suc j) k f w size out)
    unfolding read_loop
    read_loop-Delivered zero k f w out v le e =
        let last : (outer k == 0) ≡ true = ground (arith, ap outer (add-zero k), e) in
        rw last (Delivered-stop f w out le (read_round-Copied f w size (length out) v small le))
    read_loop-Delivered (suc j) k f w out v le e =
        let one = read_round-Copied f w size (length out) v small le in
        let (bytes, f', w') = read_round exec f w size (length out) in
        elim (Bool-cases (outer k == 0)) [
          | inl last ↦ rw last (Delivered-stop f w out le one)
          | inr more ↦ rw more (
              Delivered-next f w out one (
                read_loop-Delivered j (k + 1) f' w' (out ++ bytes) one.valid
                  (omega (arith, length-append out bytes, one.count))
                  (ap outer (next_round k j) ∙ e)))
        ]

  -- A read whose first test reads 0 is one round.
  pub read-Copied :
      (outer : ℕ → ℕ) (fuel : ℕ) (f : Fifo) (w : W) (size : ℕ) {wf : ℕ}
      → IsValid f 0 wf
      → size < 4294967296
      → 0 < size
      → outer 0 ≡ 0
      → (bytes : List ℕ) × (f' : Fifo) × (w' : W) × (read exec outer (suc fuel) f w size
          ≡ some (bytes, f', w'))
        × Copied f w size wf bytes f' w'
  unfolding read read_loop
  read-Copied outer fuel f w size {wf = wf} v small pos e =
      let one = read_round-Copied f w size 0 v small (omega arith) in
      let (bytes, f', w') = read_round exec f w size 0 in
      let some_size : (size == 0) ≡ false = ground (arith, pos) in
      let last : (outer 0 == 0) ≡ true = ground (arith, e) in
      (
        bytes,
        f',
        w',
        rw (some_size, last) refl,
        subst (λ n. Copied f w n wf bytes f' w') (sub-zero size) one,
      )

  module _ (outer : ℕ → ℕ) (size : ℕ) where
    read_loop_diverges :
        (fuel k : ℕ) (f : Fifo) (w : W) (out : List ℕ)
        → ((i : ℕ) → outer i ≢ 0)
        → read_loop exec outer fuel k f w size out ≡ none
    unfolding read_loop
    read_loop_diverges zero k f w out h = refl
    read_loop_diverges (suc fuel) k f w out h =
        let (bytes, f', w') = read_round exec f w size (length out) in
        ground (arith, h k, read_loop_diverges fuel (k + 1) f' w' (out ++ bytes) h)

  module _ (outer : ℕ → ℕ) (f : Fifo) (w : W) (size : ℕ) where
    -- Where no test of the loop reads 0, `pr_fifo_read` of a positive size never returns, whatever
    -- the FIFO holds.
    read_diverges :
        (fuel : ℕ) → 0 < size → ((i : ℕ) → outer i ≢ 0) → read exec outer fuel f w size ≡ none
    unfolding read
    read_diverges fuel pos h = ground (arith, read_loop_diverges outer size fuel 0 f w [] h)

    -- With no read in flight and `size` below 2 ^ 32, if test `j` of the loop reads 0, `pr_fifo_read`
    -- returns within `j + 1` rounds: what it copies is a prefix of the contents of at most `size`
    -- bytes, the rest stays in the FIFO, and the FIFO stays valid.
    pub read-Delivered :
        (j : ℕ) {wf : ℕ}
        → IsValid f 0 wf
        → size < 4294967296
        → outer j ≡ 0
        → Delivered f size wf [] (read exec outer (suc j) f w size)
    unfolding read
    read-Delivered j v small e = elim (Bool-cases (size == 0)) [
      | inl z ↦ rw z (record {
        bytes = [];
        after = f;
        world = w;
        returns = refl;
        valid = v;
        split = refl;
        bounded = omega arith;
      })
      | inr nz ↦ rw nz (
          read_loop-Delivered outer size small j 0 f w [] v (omega arith)
            (ap outer (zero-add j) ∙ e))
    ]

    -- With no read in flight and `size` below 2 ^ 32, if the first test reads 0, `pr_fifo_read` copies the bytes up to the end of the buffer alone,
    -- even where more of what is asked is stored behind the wrap.
    pub read_one_piece :
        {wf : ℕ}
        → IsValid f 0 wf
        → size < 4294967296
        → outer 0 ≡ 0
        → let n = min size (min f.used (f.size - f.rptr)) in
          (f' : Fifo) × (w' : W) × (read exec outer 1 f w size ≡ some (take n (contents f), f', w'))
          × (contents f' ≡ drop n (contents f))
    unfolding read read_loop
    read_one_piece v small e =
        let (bytes, f', w') = read_round exec f w size 0 in
        let one = read_round-Copied f w size 0 v small (omega arith) in
        let parts =
          take_of_split (min size (min f.used (f.size - f.rptr))) (contents f) bytes (contents f')
            one.split (omega (arith, one.count)) in
        elim (Bool-cases (size == 0)) [
          | inl z ↦ (f, w, ground arith, ground arith)
          | inr nz ↦ (f', w', ground (arith, parts.0), sym parts.1)
        ]

module _ (f : Fifo) (n : ℕ) {wf : ℕ} (v : IsValid f 0 wf) (stored : n ≤ f.used) where
  peek_straight : f.rptr + n ≤ f.size → take n (contents f) ≡ slice f.buffer f.rptr n
  peek_straight fits =
      (take_of_split n (contents f) (slice f.buffer f.rptr n)
        (window f.buffer f.size (advance f.size f.rptr n) (f.used - n))
        (ap (λ k. window f.buffer f.size f.rptr k) (omega arith)
          ∙ window-split f.buffer f.size f.rptr n (f.used - n) v.small v.rptr_in fits)
        (length-slice f.buffer f.rptr n)).0

  peek_wrapped :
      f.size < f.rptr + n
      → take n (contents f)
        ≡ slice f.buffer f.rptr (f.size - f.rptr) ++ slice f.buffer 0 (n - (f.size - f.rptr))
  peek_wrapped wraps =
      let s1 = f.size - f.rptr in
      let s2 = n - s1 in
      let left = window f.buffer f.size (advance f.size 0 s2) (f.used - n) in
      (take_of_split n (contents f) (slice f.buffer f.rptr s1 ++ slice f.buffer 0 s2) left
        (ap (λ k. window f.buffer f.size f.rptr k) (omega arith)
          ∙ window-split f.buffer f.size f.rptr s1 (s2 + (f.used - n)) v.small v.rptr_in
              (omega arith)
          ∙ ap (λ h. slice f.buffer f.rptr s1 ++ window f.buffer f.size h (s2 + (f.used - n)))
              (ground arith)
          ∙ ap (λ l. slice f.buffer f.rptr s1 ++ l)
              (window-split f.buffer f.size 0 s2 (f.used - n) v.small (omega arith) (omega arith))
          ∙ sym (append_assoc (slice f.buffer f.rptr s1) (slice f.buffer 0 s2) left))
        (omega (
          arith,
          length-append (slice f.buffer f.rptr s1) (slice f.buffer 0 s2),
          length-slice f.buffer f.rptr s1,
          length-slice f.buffer 0 s2,
        ))).0

-- With no read in flight, `pr_fifo_peek` copies the first `size` bytes of the contents, or all of
-- them if there are fewer, across the wrap.
peek-take : (f : Fifo) (size : ℕ) {wf : ℕ} → IsValid f 0 wf → peek f size ≡ take size (contents f)
unfolding peek
peek-take f size v = rw (← take-min size f.used (contents f) (length-contents f)) (
    ground (
      arith,
      peek_straight f (min f.used size) v,
      peek_wrapped f (min f.used size) v,
      append-nil (slice f.buffer f.rptr (min f.used size)),
    ))
