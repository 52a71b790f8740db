-- ===== src/Uart/Transmit.antt =====
-- The bytes that src/uart/uart.c's `on_to_port` moves from a FIFO to the UART.
use picore.Base.{
  ℕ, zero, suc, ◌+◌, ◌*◌, ◌<◌, ◌≡◌, refl, sym, ap, ap₂, subst, ◌∙◌, ◌⊎◌, inl, inr, arith, Bool,
  true, false, Bool-cases, Option, none, some, List, [], ◌∷◌, ◌++◌, append_assoc, length, window,
  if◌then◌else◌,
}
use picore.Fifo.{Fifo}
use picore.Fifo.Inv.{IsValid}
use picore.Fifo.Contents.{contents}
use picore.Fifo.Read.{Copied, read-Copied}
use picore.Uart.{Hardware, Uart, to_loop, wake, on_to_port, update, enable_irqs}

module _ {W : Type 0} (hw : Hardware W) (exec : ℕ → W → W) (task_init : ℕ → W → W)
    (sent : W → List ℕ) where
  -- The transmitter's side of the UART: `sent` are the bytes given to it; waking a task leaves them.
  pub record IsTransmitter (inst : ℕ) : Type 0 where
    pub written : (c : ℕ) (w : W) → sent (hw.uart_putc_raw inst c w) ≡ sent w ++ (c ∷ [])
    pub masked : (rx tx : Bool) (w : W) → sent (hw.uart_set_irq_enables inst rx tx w) ≡ sent w
    pub woken : (task : ℕ) (w : W) → sent (exec task w) ≡ sent w

  -- The byte that the UART's structure holds.
  abbrev pub waiting : Uart → List ℕ
  waiting u = if u.txbuf_busy then u.txbuf ∷ [] else []

  -- All bytes, those that went out first.
  abbrev pub out_order : Uart → Fifo → W → List ℕ
  out_order u f w = sent w ++ (waiting u ++ contents f)

  -- A run has ended with all bytes in order, and it has stopped at a full UART or an empty FIFO.
  pub record Sent (u : Uart) (f : Fifo) (w : W) (result : Option (Uart × Fifo × W)) : Type 0 where
    pub uart : Uart
    pub fifo : Fifo
    pub world : W
    pub returns : result ≡ some (uart, fifo, world)
    pub valid : IsValid fifo 0 0
    pub same : uart.instance_no ≡ u.instance_no
    pub kept : out_order uart fifo world ≡ out_order u f w
    pub stopped :
        ((uart.txbuf_busy ≡ true) × (hw.uart_is_writable u.instance_no world ≡ false))
        ⊎ ((uart.txbuf_busy ≡ false) × (contents fifo ≡ []))

  wake-sent :
      {inst : ℕ}
      → IsTransmitter inst
      → (task : Option ℕ) (w : W) → sent (wake hw exec task_init task w) ≡ sent w
  wake-sent law none w = refl
  wake-sent law (some task) w = law.woken task w

  -- A byte copied, or none since there is none.
  abbrev Taken : Fifo → List ℕ → Fifo → Type 0
  Taken f bytes f' =
      (bytes ≡ []) × (contents f' ≡ []) × (contents f ≡ [])
      ⊎ ((c : ℕ) × (bytes ≡ c ∷ []) × (contents f ≡ c ∷ contents f') × (suc f'.used ≡ f.used))

  Copied-Taken :
      (f f' : Fifo) (w w' : W) (bytes : List ℕ)
      → IsValid f 0 0
      → Copied (wake hw exec task_init) f w 1 0 bytes f' w'
      → Taken f bytes f'
  Copied-Taken f f' w w' [] v one =
      let none_used : f.used ≡ 0 = omega (arith, one.count, v.rptr_in) in
      let empty : contents f ≡ [] = ap (window f.buffer f.size f.rptr) none_used in
      inl (refl, sym one.split ∙ empty, empty)
  Copied-Taken f f' w w' (c ∷ []) v one = inr (c, refl, one.split, omega (arith, one.counted.0))
  Copied-Taken f f' w w' (c ∷ d ∷ cs) v one = absurd (omega (arith, one.count))

  Copied-sent :
      {inst : ℕ}
      → IsTransmitter inst
      → (f f' : Fifo) (w w' : W) (bytes : List ℕ)
      → Copied (wake hw exec task_init) f w 1 0 bytes f' w'
      → sent w' ≡ sent w
  Copied-sent law f f' w w' bytes one = elim one.woken [
    | inl (z, same) ↦ ap sent same
    | inr (pos, waked) ↦ ap sent waked ∙ wake-sent law f.producer w
  ]

  Sent-step :
      {u u1 : Uart} {f f1 : Fifo} {w w1 : W} {result result1 : Option (Uart × Fifo × W)}
      → result ≡ result1
      → u1.instance_no ≡ u.instance_no
      → out_order u1 f1 w1 ≡ out_order u f w
      → Sent u1 f1 w1 result1
      → Sent u f w result
  Sent-step e i same m = record {
    uart = m.uart;
    fifo = m.fifo;
    world = m.world;
    returns = e ∙ m.returns;
    valid = m.valid;
    same = m.same ∙ i;
    kept = m.kept ∙ same;
    stopped =
        subst
          (λ n.
            (m.uart.txbuf_busy ≡ true) × (hw.uart_is_writable n m.world ≡ false)
            ⊎ (m.uart.txbuf_busy ≡ false) × (contents m.fifo ≡ []))
          i m.stopped;
  }

  none_waiting : (u : Uart) → u.txbuf_busy ≡ false → waiting u ≡ []
  none_waiting u idle = rw idle refl

  measure_written :
      {fuel : ℕ} (u : Uart) (f : Fifo)
      → u.txbuf_busy ≡ true
      → f.used * 2 + length (waiting u) < suc fuel
      → f.used * 2 + 0 < fuel
  measure_written u f busy lt = ground (arith, busy, lt)

  measure_taken :
      {fuel : ℕ} (u : Uart) (f f1 : Fifo)
      → u.txbuf_busy ≡ false
      → suc f1.used ≡ f.used
      → f.used * 2 + length (waiting u) < suc fuel
      → f1.used * 2 + 1 < fuel
  measure_taken u f f1 idle used lt = ground (arith, idle, used, lt)

  to_loop-Sent :
      (outer : ℕ → ℕ) (fuel : ℕ) (u : Uart) (f : Fifo) (w : W)
      → IsTransmitter u.instance_no
      → outer 0 ≡ 0
      → IsValid f 0 0
      → f.used * 2 + length (waiting u) < fuel
      → Sent u f w (to_loop hw exec task_init outer fuel u f w)
  unfolding to_loop
  to_loop-Sent outer zero u f w law zero_first v lt = absurd (omega arith)
  to_loop-Sent outer (suc fuel) u f w law zero_first v lt = elim (Bool-cases u.txbuf_busy) [
    | inl busy ↦ elim (Bool-cases (hw.uart_is_writable u.instance_no w)) [
      | inl ready ↦
          let u1 = record u { txbuf_busy = false } in
          let w1 = hw.uart_putc_raw u.instance_no u.txbuf w in
          Sent-step (simp (busy, to_loop, ready) refl) refl
            (rw busy (
              ap (λ xs. xs ++ contents f) (law.written u.txbuf w)
              ∙ append_assoc (sent w) (u.txbuf ∷ []) (contents f)))
            (to_loop-Sent outer fuel u1 f w1 law zero_first v (measure_written u f busy lt))
      | inr full ↦ record {
        uart = u;
        fifo = f;
        world = w;
        returns = simp (busy, to_loop, full) refl;
        valid = v;
        same = refl;
        kept = refl;
        stopped = inl (busy, full);
      }
    ]
    | inr idle ↦
        let (bytes, f1, w1, e, one) =
          read-Copied (wake hw exec task_init) outer fuel f w 1 v (omega arith) (omega arith)
            zero_first in
        let same = Copied-sent law f f1 w w1 bytes one in
        elim (Copied-Taken f f1 w w1 bytes v one) [
          | inl (no_byte, empty, empty_before) ↦
              let e' = e ∙ ap (λ l. some (l, f1, w1)) no_byte in
              record {
                uart = u;
                fifo = f1;
                world = w1;
                returns = simp (idle, to_loop, e') refl;
                valid = one.valid;
                same = refl;
                kept = ap₂ (λ xs ys. xs ++ (waiting u ++ ys)) same (empty ∙ sym empty_before);
                stopped = inr (idle, empty);
              }
          | inr (c, one_byte, split, used) ↦
              let e' = e ∙ ap (λ l. some (l, f1, w1)) one_byte in
              let u1 = record u { txbuf = c; txbuf_busy = true } in
              Sent-step (simp (idle, to_loop, e') refl) refl
                (ap₂ ◌++◌ same
                  (sym split ∙ ap (λ ys. ys ++ contents f) (sym (none_waiting u idle))))
                (to_loop-Sent outer fuel u1 f1 w1 law zero_first one.valid
                  (measure_taken u f f1 idle used lt))
        ]
  ]

  -- Run with enough fuel on a FIFO that no one else has a part of, and where the test of
  -- `pr_fifo_read`'s loop reads 0, `on_to_port` returns; the bytes sent, the byte held and those in the
  -- FIFO are together what they were, in order; and it has stopped either at a UART that takes no more,
  -- with a byte held, or with the FIFO empty and none held.
  pub on_to_port-in_order :
      (outer : ℕ → ℕ) (fuel : ℕ) (u : Uart) (fifos : ℕ → Fifo) (w : W) (p : ℕ)
      → IsTransmitter u.instance_no
      → outer 0 ≡ 0
      → u.to_port ≡ some p
      → IsValid (fifos p) 0 0
      → (fifos p).used * 2 + length (waiting u) < fuel
      → (u' : Uart) × (f' : Fifo) × (w' : W) × (w'' : W) × (on_to_port hw exec task_init outer fuel
            u fifos w
          ≡ some (u', update fifos p f', w'))
        × (w' ≡ enable_irqs hw exec task_init u' w'')
        × (out_order u' f' w' ≡ out_order u (fifos p) w)
        × ((u'.txbuf_busy ≡ true) × (hw.uart_is_writable u.instance_no w'' ≡ false)
            ⊎ (u'.txbuf_busy ≡ false) × (contents f' ≡ []))
  unfolding on_to_port
  on_to_port-in_order outer fuel u fifos w p law zero_first at v lt =
      let m = to_loop-Sent outer fuel u (fifos p) w law zero_first v lt in
      let masked =
        subst
          (λ i.
            sent (hw.uart_set_irq_enables i m.uart.rxbuf_free m.uart.txbuf_busy m.world)
            ≡ sent m.world)
          (sym m.same) (law.masked m.uart.rxbuf_free m.uart.txbuf_busy m.world) in
      (
        m.uart,
        m.fifo,
        enable_irqs hw exec task_init m.uart m.world,
        m.world,
        simp (at, on_to_port, m.returns) refl,
        refl,
        ap (λ xs. xs ++ (waiting m.uart ++ contents m.fifo)) masked ∙ m.kept,
        m.stopped,
      )
