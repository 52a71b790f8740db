-- ===== src/Uart/Receive.antt =====
-- The bytes that src/uart/uart.c's `on_from_port` moves from the UART to a FIFO.
use picore.Base.{
  ℕ, zero, suc, ◌+◌, ◌*◌, ◌<◌, ◌≡◌, ◌==◌, refl, sym, ap, ap₂, subst, ◌∙◌, ◌⊎◌, inl, inr, arith, min,
  Bool, true, false, Bool-cases, Option, none, some, List, [], ◌∷◌, ◌++◌, append_assoc, append-nil,
  length, take, if◌then◌else◌,
}
use picore.Fifo.{Fifo}
use picore.Fifo as F
use picore.Fifo.Inv.{IsValid}
use picore.Fifo.Contents.{contents}
use picore.Fifo.Write as FifoWrite
use picore.Uart.{Hardware, Uart, from_loop, wake, on_from_port, update, enable_irqs}

module _ {W : Type 0} (hw : Hardware W) (exec : ℕ → W → W) (task_init : ℕ → W → W)
    (pending : W → List ℕ) where
  -- The receiver's side of the UART: `pending` are the bytes received and not yet read; waking a task leaves them.
  pub record IsReceiver (inst : ℕ) : Type 0 where
    pub readable :
        (w : W)
        → hw.uart_is_readable inst w ≡ true
        → pending w ≡ (hw.uart_getc inst w).0 ∷ pending (hw.uart_getc inst w).1
    pub unreadable : (w : W) → hw.uart_is_readable inst w ≡ false → pending w ≡ []
    pub masked : (rx tx : Bool) (w : W) → pending (hw.uart_set_irq_enables inst rx tx w) ≡ pending w
    pub woken : (task : ℕ) (w : W) → pending (exec task w) ≡ pending w

  -- The byte that the UART's structure holds.
  abbrev pub held : Uart → List ℕ
  held u = if u.rxbuf_free then [] else u.rxbuf ∷ []

  -- All bytes on their way, the oldest first.
  abbrev pub in_order : Uart → Fifo → W → List ℕ
  in_order u f w = contents f ++ (held u ++ pending w)

  -- A run has ended with all bytes in order, and it has stopped for want of bytes or of room.
  pub record Moved (u : Uart) (f : Fifo) (w : W) (result : Option (Uart × Fifo × W)) : Type 0 where
    pub uart : Uart
    pub fifo : Fifo
    pub world : W
    pub returns : result ≡ some (uart, fifo, world)
    pub valid : IsValid fifo 0 0
    pub same : uart.instance_no ≡ u.instance_no
    pub kept : in_order uart fifo world ≡ in_order u f w
    pub stopped :
        ((uart.rxbuf_free ≡ true) × (pending world ≡ []))
        ⊎ ((uart.rxbuf_free ≡ false) × (fifo.free ≡ 0))

  module _ {inst : ℕ} (law : IsReceiver inst) where
    wake-pending : (task : Option ℕ) (w : W) → pending (wake hw exec task_init task w) ≡ pending w
    wake-pending none w = refl
    wake-pending (some task) w = law.woken task w

    wakes-pending :
        (n : ℕ) (task : Option ℕ) (w : W)
        → pending (FifoWrite.wake (wake hw exec task_init) n task w) ≡ pending w
    wakes-pending zero task w = refl
    wakes-pending (suc n) task w =
        wakes-pending n task (wake hw exec task_init task w) ∙ wake-pending task w

  -- What `pr_fifo_write` of one byte does.
  write_byte :
      {inst : ℕ}
      → IsReceiver inst
      → (f : Fifo) (w : W) (c : ℕ) → IsValid f 0 0
      → (n : ℕ) × (f' : Fifo) × (w' : W) × (F.write (wake hw exec task_init) f w (c ∷ []) 1
          ≡ some (n, f', w'))
        × IsValid f' 0 0
        × (pending w' ≡ pending w)
        × (((n == 0) ≡ true) × (f'.free ≡ 0) × (contents f' ≡ contents f)
            ⊎ ((n == 0) ≡ false) × (contents f' ≡ contents f ++ (c ∷ [])))
  write_byte law f w c v =
      let one =
        FifoWrite.write-Done (wake hw exec task_init) f w (c ∷ []) 1 v (omega arith)
          (omega arith) in
      (
        0 + min 1 f.free,
        one.after,
        one.world,
        one.returns,
        one.valid,
        ap pending one.woken.0 ∙ wakes-pending law one.wakes f.consumer w,
        elim (Bool-cases (0 + min 1 f.free == 0)) [
          | inl full ↦
              let nothing : min 1 f.free ≡ 0 = ground (arith, full) in
              inl (
                full,
                omega (arith, one.counted, nothing),
                one.appended
                    ∙ ap (λ n. contents f ++ take n (c ∷ [])) nothing
                    ∙ append-nil (contents f),
              )
          | inr room ↦
              let all : min 1 f.free ≡ 1 = ground (arith, room) in
              inr (room, one.appended ∙ ap (λ n. contents f ++ take n (c ∷ [])) all)
        ],
      )

  Moved-step :
      {u u1 : Uart} {f f1 : Fifo} {w w1 : W} {result result1 : Option (Uart × Fifo × W)}
      → result ≡ result1
      → u1.instance_no ≡ u.instance_no
      → in_order u1 f1 w1 ≡ in_order u f w
      → Moved u1 f1 w1 result1
      → Moved u f w result
  Moved-step e i same m = record {
    uart = m.uart;
    fifo = m.fifo;
    world = m.world;
    returns = e ∙ m.returns;
    valid = m.valid;
    same = m.same ∙ i;
    kept = m.kept ∙ same;
    stopped = m.stopped;
  }

  measure_read :
      {fuel : ℕ} (u : Uart) (c : ℕ) (w w1 : W)
      → u.rxbuf_free ≡ true
      → pending w ≡ c ∷ pending w1
      → length (pending w) * 2 + length (held u) < suc fuel
      → length (pending w1) * 2 + 1 < fuel
  measure_read u c w w1 free more lt = ground (arith, ap length more, lt)

  measure_written :
      {fuel : ℕ} (u : Uart) (w w1 : W)
      → u.rxbuf_free ≡ false
      → pending w1 ≡ pending w
      → length (pending w) * 2 + length (held u) < suc fuel
      → length (pending w1) * 2 + 0 < fuel
  measure_written u w w1 busy same lt = ground (arith, ap length same, lt)

  from_loop-Moved :
      (fuel : ℕ) (u : Uart) (f : Fifo) (w : W)
      → IsReceiver u.instance_no
      → IsValid f 0 0
      → length (pending w) * 2 + length (held u) < fuel
      → Moved u f w (from_loop hw exec task_init fuel u f w)
  unfolding from_loop
  from_loop-Moved zero u f w law v lt = absurd (omega arith)
  from_loop-Moved (suc fuel) u f w law v lt = elim (Bool-cases u.rxbuf_free) [
    | inl free ↦ elim (Bool-cases (hw.uart_is_readable u.instance_no w)) [
      | inl ready ↦
          let (c, w1) = hw.uart_getc u.instance_no w in
          let u1 = record u { rxbuf = c; rxbuf_free = false } in
          let more = law.readable w ready in
          Moved-step (simp (free, from_loop, ready) refl) refl (rw (free, more) refl)
            (from_loop-Moved fuel u1 f w1 law v (measure_read u c w w1 free more lt))
      | inr empty ↦ record {
        uart = u;
        fifo = f;
        world = w;
        returns = simp (free, from_loop, empty) refl;
        valid = v;
        same = refl;
        kept = refl;
        stopped = inl (free, law.unreadable w empty);
      }
    ]
    | inr busy ↦
        let (n, f1, w1, e, v1, same, outcome) = write_byte law f w u.rxbuf v in
        elim outcome [
          | inl (none_written, no_room, same_bytes) ↦ record {
            uart = u;
            fifo = f1;
            world = w1;
            returns = simp (busy, from_loop, e, none_written) refl;
            valid = v1;
            same = refl;
            kept = ap₂ (λ xs ys. xs ++ (held u ++ ys)) same_bytes same;
            stopped = inr (busy, no_room);
          }
          | inr (written, more) ↦
              Moved-step (simp (busy, from_loop, e, written) refl) refl
                (ap₂ ◌++◌ more same
                  ∙ rw busy (append_assoc (contents f) (u.rxbuf ∷ []) (pending w)))
                (from_loop-Moved fuel (record u { rxbuf_free = true }) f1 w1 law v1
                  (measure_written u w w1 busy same lt))
        ]
  ]

  -- Run with enough fuel on a FIFO that no one else has a part of, `on_from_port` returns; the bytes in
  -- the FIFO, the byte held and those that the UART has received are together what they were, in
  -- order; and it has stopped either for want of received bytes, or with the FIFO full and a byte held.
  pub on_from_port-in_order :
      (fuel : ℕ) (u : Uart) (fifos : ℕ → Fifo) (w : W) (p : ℕ)
      → IsReceiver u.instance_no
      → u.from_port ≡ some p
      → IsValid (fifos p) 0 0
      → length (pending w) * 2 + length (held u) < fuel
      → (u' : Uart) × (f' : Fifo) × (w' : W) × (on_from_port hw exec task_init fuel u fifos w
          ≡ some (u', update fifos p f', w'))
        × (in_order u' f' w' ≡ in_order u (fifos p) w)
        × ((u'.rxbuf_free ≡ true) × (pending w' ≡ []) ⊎ (u'.rxbuf_free ≡ false) × (f'.free ≡ 0))
  unfolding on_from_port
  on_from_port-in_order fuel u fifos w p law at v lt =
      let m = from_loop-Moved fuel u (fifos p) w law v lt in
      let masked =
        subst
          (λ i.
            pending (hw.uart_set_irq_enables i m.uart.rxbuf_free m.uart.txbuf_busy m.world)
            ≡ pending m.world)
          (sym m.same) (law.masked m.uart.rxbuf_free m.uart.txbuf_busy m.world) in
      (
        m.uart,
        m.fifo,
        enable_irqs hw exec task_init m.uart m.world,
        simp (at, on_from_port, m.returns) refl,
        ap (λ xs. contents m.fifo ++ (held m.uart ++ xs)) masked ∙ m.kept,
        elim m.stopped [
          | inl (free, none_left) ↦ inl (free, masked ∙ none_left)
          | inr full ↦ inr full
        ],
      )
