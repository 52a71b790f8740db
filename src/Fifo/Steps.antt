-- ===== src/Fifo/Steps.antt =====
-- One producer and one consumer on a FIFO, in any interleaving of their critical sections: the
-- prepare and done calls of src/fifo/fifo.c, with the copies in between. Each side gives back the whole
-- of a piece that it was granted, as `pr_fifo_write` and `pr_fifo_read` do.
use native.Mathlib.Nat.{mod-add-mod, mod-eq_of_lt, mod-eq-sub-mod}
use native.Mathlib.Decide.{dec_lt}
use picore.Base.{
  ◌⊎◌, inl, inr, ℕ, ◌+◌, ◌-◌, ◌%◌, ◌≤◌, ◌<◌, ◌≡◌, ◌∙◌, sym, ap, arith, Option, none, some, List, [],
  ◌++◌, append_assoc, length, slice, length-blit, window, window-add, window-slice, window-blit,
  blit,
}
use picore.Fifo.{Fifo, read_prepare, write_prepare, read_done, write_done, store}
use picore.Fifo.Inv.{IsValid, read_prepare-IsValid, write_prepare-IsValid, read_prepare_at}
use picore.Fifo.Contents.{contents}

-- A piece granted by a prepare and not yet given back: its offset and its size.
abbrev pub Held : Type 0
Held = Option (ℕ × ℕ)

abbrev pub held_count : Held → ℕ
held_count none = 0
held_count (some (offset, count)) = count

abbrev pub held_from : Held → ℕ → ℕ
held_from none ptr = ptr
held_from (some (offset, count)) ptr = offset

-- The FIFO, what each side holds, and the bytes that have gone in and come out.
pub record System (W : Type 0) : Type 0 where
  pub fifo : Fifo
  pub world : W
  pub writer : Held
  pub reader : Held
  pub sent : List ℕ
  pub received : List ℕ

-- The remainder of a number below twice the modulus.
mod_cases : (n x size : ℕ) → n ≡ x % size → x < size + size → (n ≡ x) ⊎ (n + size ≡ x)
mod_cases n x size e lt = elim (dec_lt x size) [
  | yes p ↦ inl (e ∙ mod-eq_of_lt p)
  | no p ↦ inr (
      omega (
        arith,
        mod-eq-sub-mod {n = x} {m = size} (omega arith),
        mod-eq_of_lt {n = x - size} {m = size} (omega arith),
      ))
]

module _ {W : Type 0} (exec : Option ℕ → W → W) where
  unfoldable pub reserved : System W → ℕ → System W
  reserved s n =
      let g = write_prepare s.fifo n in
      record s { fifo = g.fifo; writer = some (g.offset, g.count) }

  unfoldable pub filled : System W → ℕ → List ℕ → System W
  filled s offset bytes =
      let (f, w) = write_done exec (store s.fifo offset bytes) (length bytes) s.world in
      record s { fifo = f; world = w; writer = none; sent = s.sent ++ bytes }

  unfoldable pub claimed : System W → ℕ → System W
  claimed s n =
      let g = read_prepare s.fifo n in record s { fifo = g.fifo; reader = some (g.offset, g.count) }

  unfoldable pub released : System W → ℕ → ℕ → System W
  released s offset n =
      let (f, w) = read_done exec s.fifo n s.world in
      record s {
        fifo = f;
        world = w;
        reader = none;
        received = s.received ++ slice s.fifo.buffer offset n;
      }

  pub data Step : System W → System W → Type 0 where
    reserve : (s : System W) (n : ℕ) → s.writer ≡ none → Step s (reserved s n)
    fill :
        (s : System W) (offset : ℕ) (bytes : List ℕ)
        → s.writer ≡ some (offset, length bytes)
        → Step s (filled s offset bytes)
    claim : (s : System W) (n : ℕ) → s.reader ≡ none → Step s (claimed s n)
    release :
        (s : System W) (offset n : ℕ) → s.reader ≡ some (offset, n) → Step s (released s offset n)

  pub data Reach (s : System W) : System W → Type 0 where
    here : Reach s s
    next : {t u : System W} → Reach s t → Step t u → Reach s u

  -- From where the reader's piece starts, the ring holds what is sent and not yet received.
  pub record Ordered (s : System W) : Type 0 where
    pub valid : IsValid s.fifo (held_count s.reader) (held_count s.writer)
    pub reader_in : held_from s.reader s.fifo.rptr < s.fifo.size
    pub reader_fits : held_from s.reader s.fifo.rptr + held_count s.reader ≤ s.fifo.size
    pub reader_at :
        s.fifo.rptr ≡ (held_from s.reader s.fifo.rptr + held_count s.reader) % s.fifo.size
    pub writer_fits : held_from s.writer s.fifo.wptr + held_count s.writer ≤ s.fifo.size
    pub writer_at : held_from s.writer s.fifo.wptr ≡ (s.fifo.rptr + s.fifo.used) % s.fifo.size
    pub order :
        s.sent
        ≡ s.received
          ++ window s.fifo.buffer s.fifo.size
              (held_from s.reader s.fifo.rptr)
              (held_count s.reader + s.fifo.used)

  module _ (s : System W) (o : Ordered s) where
    reserve-Ordered : (n : ℕ) → s.writer ≡ none → Ordered (reserved s n)
    unfolding reserved write_prepare
    reserve-Ordered n e = ground (arith, write_prepare-IsValid s.fifo n o.valid)

    -- The writer's piece starts where the ring's stored bytes end.
    fill-at :
        (offset n : ℕ)
        → s.writer ≡ some (offset, n)
        → offset
          ≡ (held_from s.reader s.fifo.rptr + (held_count s.reader + s.fifo.used)) % s.fifo.size
    fill-at offset n e =
        let at : offset ≡ (s.fifo.rptr + s.fifo.used) % s.fifo.size = ground arith in
        at
        ∙ ap (λ k. (k + s.fifo.used) % s.fifo.size) o.reader_at
        ∙ mod-add-mod (held_from s.reader s.fifo.rptr + held_count s.reader) s.fifo.size s.fifo.used
        ∙ ap (λ k. k % s.fifo.size) (omega arith)

    fill-order :
        (offset : ℕ) (bytes : List ℕ)
        → s.writer ≡ some (offset, length bytes)
        → window
            (blit s.fifo.buffer offset bytes)
            s.fifo.size
            (held_from s.reader s.fifo.rptr)
            (held_count s.reader + s.fifo.used + length bytes)
          ≡ window s.fifo.buffer s.fifo.size
              (held_from s.reader s.fifo.rptr)
              (held_count s.reader + s.fifo.used)
            ++ bytes
    fill-order offset bytes e =
        window-blit s.fifo.buffer s.fifo.size bytes (held_count s.reader + s.fifo.used)
          (held_from s.reader s.fifo.rptr) offset o.valid.storage o.reader_in (ground arith)
          (ground arith) (fill-at offset (length bytes) e)

    fill-linked :
        (offset n : ℕ)
        → s.writer ≡ some (offset, n)
        → s.fifo.wptr ≡ (s.fifo.rptr + (s.fifo.used + n)) % s.fifo.size
    fill-linked offset n e =
        let count : held_count s.writer ≡ n = ground arith in
        o.valid.linked ∙ ap (λ k. k % s.fifo.size) (omega arith)

    fill-Ordered :
        (offset : ℕ) (bytes : List ℕ)
        → s.writer ≡ some (offset, length bytes)
        → Ordered (filled s offset bytes)
    unfolding filled write_done store
    fill-Ordered offset bytes e = ground (
      arith,
      fill-order offset bytes e,
      length-blit s.fifo.buffer offset bytes,
      append_assoc s.received
          (window s.fifo.buffer s.fifo.size (held_from s.reader s.fifo.rptr)
            (held_count s.reader + s.fifo.used))
          bytes,
      fill-linked offset (length bytes) e,
    )

    claim-Ordered : (n : ℕ) → s.reader ≡ none → Ordered (claimed s n)
    unfolding claimed read_prepare
    claim-Ordered n e =
        ground (arith, read_prepare-IsValid s.fifo n o.valid, read_prepare_at s.fifo n o.valid)

    release-order :
        (offset n : ℕ)
        → s.reader ≡ some (offset, n)
        → window s.fifo.buffer s.fifo.size offset (n + s.fifo.used)
          ≡ slice s.fifo.buffer offset n ++ contents s.fifo
    release-order offset n e =
        let at : s.fifo.rptr ≡ (offset + n) % s.fifo.size = ground (arith, o.reader_at) in
        window-add s.fifo.buffer s.fifo.size offset n s.fifo.used (ground (arith, o.reader_in))
        ∙ ap (λ l. l ++ window s.fifo.buffer s.fifo.size ((offset + n) % s.fifo.size) s.fifo.used)
            (window-slice s.fifo.buffer s.fifo.size offset n (ground (arith, o.reader_fits)))
        ∙ ap (λ h. slice s.fifo.buffer offset n ++ window s.fifo.buffer s.fifo.size h s.fifo.used)
            (sym at)

    release-Ordered : (offset n : ℕ) → s.reader ≡ some (offset, n) → Ordered (released s offset n)
    unfolding released read_done
    release-Ordered offset n e = ground (
      arith,
      release-order offset n e,
      mod-eq_of_lt {n = s.fifo.rptr + 0} {m = s.fifo.size} (omega (arith, o.valid.rptr_in)),
      append_assoc s.received (slice s.fifo.buffer offset n) (contents s.fifo),
    )

  Step-Ordered : {s t : System W} → Step s t → Ordered s → Ordered t
  Step-Ordered (reserve s n e) o = reserve-Ordered s o n e
  Step-Ordered (fill s offset bytes e) o = fill-Ordered s o offset bytes e
  Step-Ordered (claim s n e) o = claim-Ordered s o n e
  Step-Ordered (release s offset n e) o = release-Ordered s o offset n e

  -- However the critical sections of one producer and one consumer are interleaved, the invariant
  -- of the FIFO and the order of its bytes are kept: what is sent is what is received, then the
  -- piece that the reader holds, then the stored bytes.
  pub Reach-Ordered : {s t : System W} → Ordered s → Reach s t → Ordered t
  Reach-Ordered o here = o
  Reach-Ordered o (next r st) = Step-Ordered st (Reach-Ordered o r)

  -- The initial system over a FIFO with nothing in flight and nothing stored.
  unfoldable pub start : Fifo → W → System W
  start f w = record { fifo = f; world = w; writer = none; reader = none; sent = []; received = [] }

  start-Ordered : (f : Fifo) (w : W) → IsValid f 0 0 → f.used ≡ 0 → Ordered (start f w)
  unfolding start
  start-Ordered f w v e =
      ground
        (arith, mod-eq_of_lt {n = f.rptr + 0} {m = f.size} (omega (arith, v.rptr_in)), v.linked)

  -- From a valid and empty FIFO, after any interleaving of the critical sections of one producer and
  -- one consumer, each of which gives back a piece whole, as `pr_fifo_write` and `pr_fifo_read` do:
  -- when the reader holds no piece, the bytes sent are those received, in order,
  -- followed by the contents.
  pub sent-received :
      (f : Fifo) (w : W) {t : System W}
      → IsValid f 0 0
      → f.used ≡ 0
      → Reach (start f w) t
      → t.reader ≡ none
      → t.sent ≡ t.received ++ contents t.fifo
  sent-received f w v e r idle =
      ground (arith, (Reach-Ordered (start-Ordered f w v e) r).order, ap held_count idle)

  -- From a valid and empty FIFO, after any interleaving of the critical sections of one producer and
  -- one consumer, each of which gives back a piece whole, as `pr_fifo_write` and `pr_fifo_read` do: the
  -- pieces that the reader and the writer hold lie
  -- inside the buffer, and one ends before the other begins, so neither copy disturbs the other.
  pub held_disjoint :
      (f : Fifo) (w : W) {t : System W} (ro rc wo wc : ℕ)
      → IsValid f 0 0
      → f.used ≡ 0
      → Reach (start f w) t
      → t.reader ≡ some (ro, rc)
      → t.writer ≡ some (wo, wc)
      → (ro + rc ≤ length t.fifo.buffer)
        × (wo + wc ≤ length t.fifo.buffer)
        × ((ro + rc ≤ wo) ⊎ (wo + wc ≤ ro))
  held_disjoint f w {t} ro rc wo wc v e r er ew =
      let o = Reach-Ordered (start-Ordered f w v e) r in
      let at = fill-at t o wo wc ew in
      let around = mod_cases wo _ t.fifo.size at (ground (arith, o)) in ground (arith, o, around)
