-- ===== src/Fifo/Write.antt =====
-- `pr_fifo_write`: how many bytes it takes, which, and when the consumer is woken.
use picore.Base.{
  ℕ, zero, suc, ◌+◌, ◌-◌, ◌≤◌, ◌<◌, ◌≡◌, ◌≢◌, ◌∙◌, ◌⊎◌, inl, inr, sym, ap, min, arith, List, ◌++◌,
  take, drop, length, refl, Option, some, append-nil, append_assoc, take-drop-append, drop-drop,
  length-take, length-drop, ==_iff, Bool-cases, ◌==◌, false, sub32,
}
use picore.Fifo.{Fifo, write_prepare, write_done, store, write_round, write_loop, write, write_size}
use picore.Fifo.Inv.{
  IsValid, write_prepare-IsValid, write_done-IsValid, store-IsValid, write_prepare_count,
}
use picore.Fifo.Contents.{contents, write_done-contents}

pieces :
    (done n m : ℕ) (bytes : List ℕ)
    → take n (drop done bytes) ++ take m (drop (done + n) bytes) ≡ take (n + m) (drop done bytes)
pieces done n m bytes = rw (← drop-drop done n bytes) (take-drop-append n m (drop done bytes))

module _ {W : Type 0} (exec : Option ℕ → W → W) where
  -- `n` wake-ups of one task.
  abbrev pub wake : ℕ → Option ℕ → W → W
  wake zero task w = w
  wake (suc n) task w = wake n task (exec task w)

  record Wrote (f : Fifo) (w : W) (bytes : List ℕ) (size done r : ℕ) (moved : ℕ) (f' : Fifo)
      (w' : W) : Type 0 where
    valid : IsValid f' r 0
    fits : moved ≡ min (size - done) (min f.free (f.size - f.wptr))
    used : f'.used ≡ f.used + moved
    free : f'.free + moved ≡ f.free
    same_size : f'.size ≡ f.size
    same_consumer : f'.consumer ≡ f.consumer
    appended : contents f' ≡ contents f ++ take moved (drop done bytes)
    woken : (moved ≡ 0) × (w' ≡ w) ⊎ (0 < moved) × (w' ≡ exec f.consumer w)

  module _ (f : Fifo) (w : W) (bytes : List ℕ) (size done : ℕ) {r : ℕ} (v : IsValid f r 0)
      (small : size < 4294967296) (in_range : done ≤ size) (fits : size ≤ length bytes) where
    length-piece :
        let g = write_prepare f (sub32 size done) in
        length (take g.count (drop done bytes)) ≡ g.count
    length-piece = omega (
      arith,
      length-take (write_prepare f (sub32 size done)).count (drop done bytes),
      length-drop done bytes,
      write_prepare_count f (sub32 size done) v,
    )

    filled-IsValid :
        let g = write_prepare f (sub32 size done) in
        IsValid
          (write_done exec (store g.fifo g.offset (take g.count (drop done bytes))) g.count w).0
          r
          0
    filled-IsValid =
        let g = write_prepare f (sub32 size done) in
        write_done-IsValid exec w (store g.fifo g.offset (take g.count (drop done bytes))) g.count
          {r = r} {w = 0}
          (store-IsValid g.fifo g.offset (take g.count (drop done bytes))
            (write_prepare-IsValid f (sub32 size done) v))

    write_round-Wrote :
        let (moved, f', w') = write_round exec f w bytes size done in
        Wrote f w bytes size done r moved f' w'
    unfolding write_round
    write_round-Wrote = ground (
      arith,
      filled-IsValid,
      length-piece,
      append-nil (contents f),
      write_done-contents exec w f (sub32 size done)
          (take (write_size f (sub32 size done)) (drop done bytes)) v,
    )

  -- A normal end of `pr_fifo_write` that took `moved` bytes of `bytes`, from index `done` on.
  pub record Done (f : Fifo) (w : W) (bytes : List ℕ) (done moved r : ℕ)
      (result : Option (ℕ × Fifo × W)) : Type 0 where
    pub after : Fifo
    pub world : W
    pub wakes : ℕ
    pub returns : result ≡ some (done + moved, after, world)
    pub valid : IsValid after r 0
    pub appended : contents after ≡ contents f ++ take moved (drop done bytes)
    pub counted : (after.used ≡ f.used + moved) × (after.free + moved ≡ f.free)
    pub kept : (after.size ≡ f.size) × (after.consumer ≡ f.consumer)
    pub woken : (world ≡ wake wakes f.consumer w) × (wakes ≤ moved) × (0 < moved → 0 < wakes)

  wake-cong : (n : ℕ) {t t' : Option ℕ} (w : W) → t ≡ t' → wake n t w ≡ wake n t' w
  wake-cong n w e = ap (λ t. wake n t w) e

  Done-next :
      (f : Fifo) (w : W) (bytes : List ℕ) (size done : ℕ) {r n m : ℕ} {f' : Fifo} {w' : W}
      {result : Option (ℕ × Fifo × W)}
      → Wrote f w bytes size done r n f' w'
      → n ≢ 0
      → Done f' w' bytes (done + n) m r result
      → Done f w bytes done (n + m) r result
  Done-next f w bytes size done {r} {n} {m} {f'} {w'} {result} one pos rest = record {
    after = rest.after;
    world = rest.world;
    wakes = suc rest.wakes;
    returns = rest.returns ∙ ap (λ k. some (k, rest.after, rest.world)) (omega arith);
    valid = rest.valid;
    appended =
        rest.appended
        ∙ ap (λ l. l ++ take m (drop (done + n) bytes)) one.appended
        ∙ append_assoc (contents f) (take n (drop done bytes)) (take m (drop (done + n) bytes))
        ∙ ap (λ l. contents f ++ l) (pieces done n m bytes);
    counted = omega (arith, one.used, one.free, rest.counted);
    kept = (rest.kept.0 ∙ one.same_size, rest.kept.1 ∙ one.same_consumer);
    woken = (
      ground (arith, wake-cong rest.wakes w' one.same_consumer, rest.woken),
      omega arith,
      omega arith,
    );
  }

  -- No byte moved: the request is done or the FIFO is full.
  Done-stop :
      (f : Fifo) (w : W) (bytes : List ℕ) (size done : ℕ) {r n : ℕ} {f' : Fifo} {w' : W}
      → Wrote f w bytes size done r n f' w'
      → n ≡ 0
      → f.wptr < f.size
      → Done f w bytes done (min (size - done) f.free) r (some (done, f', w'))
  Done-stop f w bytes size done {n} {f'} {w'} one e lt =
      let none_left : min (size - done) f.free ≡ 0 = omega (arith, one.fits) in
      rw none_left (record {
        after = f';
        world = w';
        wakes = 0;
        returns = ap (λ k. some (k, f', w')) (omega arith);
        valid = one.valid;
        appended = ground (arith, one.appended);
        counted = omega (arith, one.used, one.free);
        kept = (one.same_size, one.same_consumer);
        woken = (ground (arith, one.woken), omega arith, omega arith);
      })

  split_count :
      {f : Fifo} {w : W} {bytes : List ℕ} {size done r n : ℕ} {f' : Fifo} {w' : W}
      → Wrote f w bytes size done r n f' w'
      → min (size - done) f.free ≡ n + min (size - (done + n)) f'.free
  split_count one = omega (arith, one.fits, one.free)

  module _ (bytes : List ℕ) (size : ℕ) {r : ℕ} (small : size < 4294967296)
      (fits : size ≤ length bytes) where
    write_loop-Done :
        (fuel : ℕ) (f : Fifo) (w : W) (done : ℕ)
        → IsValid f r 0
        → done ≤ size
        → size - done < fuel
        → Done f w bytes done
            (min (size - done) f.free)
            r
            (write_loop exec fuel f w bytes size done)
    unfolding write_loop
    write_loop-Done zero f w done v le lt = absurd (omega arith)
    write_loop-Done (suc fuel) f w done v le lt =
        let one = write_round-Wrote f w bytes size done v small le fits in
        let (moved, f', w') = write_round exec f w bytes size done in
        elim (Bool-cases (moved == 0)) [
          | inl e ↦ rw e (Done-stop f w bytes size done one ((==_iff _ _).0 e) v.wptr_in)
          | inr e ↦
              rw (e, split_count one)
                (Done-next f w bytes size done one (ground arith) (
                  write_loop-Done fuel f' w' (done + moved) one.valid (omega (arith, one.fits))
                    (ground (arith, one.fits))))
        ]

  -- With no write in flight and `size` bytes given, `size` below 2 ^ 32, `pr_fifo_write` returns
  -- after at most `size + 1` rounds: it appends the first `min(size, free)` bytes to the contents, in
  -- order, returns their number, and keeps the FIFO valid.
  pub write-Done :
      (f : Fifo) (w : W) (bytes : List ℕ) (size : ℕ) {r : ℕ}
      → IsValid f r 0
      → size < 4294967296
      → size ≤ length bytes
      → Done f w bytes 0 (min size f.free) r (write exec f w bytes size)
  unfolding write
  write-Done f w bytes zero v small fits =
      let nothing : min 0 f.free ≡ 0 = omega arith in
      rw nothing (record {
        after = f;
        world = w;
        wakes = 0;
        returns = refl;
        valid = v;
        appended = sym (append-nil (contents f));
        counted = omega arith;
        kept = (refl, refl);
        woken = (refl, omega arith, omega arith);
      })
  write-Done f w bytes (suc k) v small fits =
      let all : min (suc k) f.free ≡ min (suc k - 0) f.free = omega arith in
      let more : (suc k == 0) ≡ false = ground arith in
      rw (all, more)
        (write_loop-Done bytes (suc k) small fits (suc k + 1) f w 0 v (omega arith) (omega arith))
