-- ===== src/CdcInterface/Transfer.antt =====
-- The bytes that src/cdc_interface/cdc_interface.c's handler moves between its FIFOs and USB.
use picore.Base.{
  ℕ, ◌≤◌, ◌≡◌, ◌==◌, ==_iff, refl, sym, ap, ap₂, subst, ◌∙◌, arith, true, inl, inr, Bool-cases,
  Option, some, List, ◌++◌, append_assoc, length, take, drop, length-take, take-append-drop,
  length-slice, slice, if◌then◌else◌,
}
use picore.Fifo.{Fifo, read_prepare, read_done, write_prepare, write_done, store, is_empty}
use picore.Fifo.Inv.{
  IsValid, read_prepare_count, write_prepare_count, read_prepare-IsValid, read_done-IsValid,
  write_prepare-IsValid, write_done-IsValid, store-IsValid,
}
use picore.Fifo.Contents.{contents, read_prepare-contents, read_done-contents, write_done-contents}
use picore.Fifo.Grants.{read_prepare_buffer, read_done-wakes, write_done-wakes}
use picore.CdcInterface.{
  Cdc, Usb, raise, raise_if_any, event_open, event_tx, event_rx, to_usb_try_send, from_usb_try_recv,
  handle,
}

module _ {W : Type 0} (usb : Usb W) (exec : Option ℕ → W → W) (exec_in_ms : ℕ → ℕ → W → W)
    (outbox inbox : W → List ℕ) where
  -- What it leaves: the bytes given to USB, and those received and not yet read.
  abbrev Leaves : W → W → Type 0
  Leaves w w' = (outbox w' ≡ outbox w) × (inbox w' ≡ inbox w)

  -- TinyUSB takes what it has said that it has room for, and returns what it has said that it has; waking a task moves no byte.
  pub record IsUsb (index : ℕ) : Type 0 where
    pub written :
        (bytes : List ℕ) (w : W)
        → length bytes ≤ usb.tud_cdc_n_write_available index w
        → let (n, w') = usb.tud_cdc_n_write index bytes w in
          (n ≡ length bytes) × (outbox w' ≡ outbox w ++ bytes) × (inbox w' ≡ inbox w)
    pub available : (w : W) → usb.tud_cdc_n_available index w ≡ length (inbox w)
    pub received :
        (n : ℕ) (w : W)
        → n ≤ length (inbox w)
        → let (bytes, w') = usb.tud_cdc_n_read index n w in
          (bytes ≡ take n (inbox w)) × (inbox w' ≡ drop n (inbox w)) × (outbox w' ≡ outbox w)
    pub flushed : (w : W) → Leaves w (usb.tud_cdc_n_write_flush index w)
    pub executed : (task : Option ℕ) (w : W) → Leaves w (exec task w)
    pub executed_later : (task ms : ℕ) (w : W) → Leaves w (exec_in_ms task ms w)

  Leaves-trans : {w w1 w2 : W} → Leaves w w1 → Leaves w1 w2 → Leaves w w2
  Leaves-trans (p, q) (p', q') = (p' ∙ p, q' ∙ q)

  read_done-Leaves :
      {index : ℕ} → IsUsb index → (f : Fifo) (n : ℕ) (w : W) → Leaves w (read_done exec f n w).1
  read_done-Leaves law f n w = elim (read_done-wakes exec f n w) [
    | inl (nothing, same) ↦ (ap (λ r. outbox r.1) same, ap (λ r. inbox r.1) same)
    | inr (some_bytes, woken) ↦
        let (o, i) = law.executed f.producer w in (ap outbox woken ∙ o, ap inbox woken ∙ i)
  ]

  write_done-Leaves :
      {index : ℕ} → IsUsb index → (f : Fifo) (n : ℕ) (w : W) → Leaves w (write_done exec f n w).1
  write_done-Leaves law f n w = elim (write_done-wakes exec f n w) [
    | inl (nothing, same) ↦ (ap (λ r. outbox r.1) same, ap (λ r. inbox r.1) same)
    | inr (some_bytes, woken) ↦
        let (o, i) = law.executed f.consumer w in (ap outbox woken ∙ o, ap inbox woken ∙ i)
  ]

  -- What follows a transfer to USB: a flush, or the handler again.
  abbrev settle : Cdc → Fifo → W → W
  settle c f w = if is_empty f then usb.tud_cdc_n_write_flush c.index w else exec (some c.handler) w

  settle-Leaves : (c : Cdc) (f : Fifo) (w : W) → IsUsb c.index → Leaves w (settle c f w)
  settle-Leaves c f w law = elim (Bool-cases (is_empty f)) [
    | inl empty ↦ rw empty (law.flushed w)
    | inr more ↦ rw more (law.executed (some c.handler) w)
  ]

  -- Bytes have gone from the FIFO to USB, none lost, and none the other way.
  pub record Sent (f : Fifo) (w : W) (result : Option (ℕ × Fifo × W)) : Type 0 where
    pub count : ℕ
    pub fifo : Fifo
    pub world : W
    pub returns : result ≡ some (count, fifo, world)
    pub valid : IsValid fifo 0 0
    pub kept : outbox world ++ contents fifo ≡ outbox w ++ contents f
    pub others : inbox world ≡ inbox w

  -- Bytes have come from USB to the FIFO likewise.
  pub record Received (f : Fifo) (w : W) (result : Option (ℕ × Fifo × W)) : Type 0 where
    pub count : ℕ
    pub fifo : Fifo
    pub world : W
    pub returns : result ≡ some (count, fifo, world)
    pub valid : IsValid fifo 0 0
    pub kept : contents fifo ++ inbox world ≡ contents f ++ inbox w
    pub others : outbox world ≡ outbox w

  try_send-Sent :
      (c : Cdc) (f : Fifo) (w : W)
      → IsUsb c.index
      → IsValid f 0 0
      → Sent f w (to_usb_try_send usb exec exec_in_ms c f w)
  unfolding to_usb_try_send
  try_send-Sent c f w law v = elim (Bool-cases (usb.tud_cdc_n_write_available c.index w == 0)) [
    | inl no_room ↦ record {
      count = 0;
      fifo = f;
      world = exec (some c.handler) w;
      returns = rw (no_room, to_usb_try_send) refl;
      valid = v;
      kept = ap (λ l. l ++ contents f) (law.executed (some c.handler) w).0;
      others = (law.executed (some c.handler) w).1;
    }
    | inr room ↦
        let n = usb.tud_cdc_n_write_available c.index w in
        let g = read_prepare f n in
        let bytes = slice g.fifo.buffer g.offset g.count in
        let (written, w1) = usb.tud_cdc_n_write c.index bytes w in
        let done = read_done exec g.fifo g.count w1 in
        let split : contents f ≡ bytes ++ contents g.fifo =
          read_prepare-contents f n v
          ∙ ap (λ b. slice b g.offset g.count ++ contents g.fifo) (sym (read_prepare_buffer f n)) in
        let valid =
          read_done-IsValid exec w1 g.fifo g.count {r = 0} {w = 0} (read_prepare-IsValid f n v) in
        let (l, o, i) =
          law.written bytes w (
            omega (arith, length-slice g.fifo.buffer g.offset g.count, read_prepare_count f n v)) in
        elim (Bool-cases (g.count == 0)) [
          | inl nothing ↦
              let zero_count : g.count ≡ 0 = (==_iff _ _).0 nothing in
              let all : contents f ≡ contents g.fifo =
                split ∙ ap (λ k. slice g.fifo.buffer g.offset k ++ contents g.fifo) zero_count in
              record {
                count = g.count;
                fifo = g.fifo;
                world = settle c g.fifo w;
                returns = rw (room, to_usb_try_send, nothing) refl;
                valid =
                    subst (λ k. IsValid g.fifo k 0) (omega (arith, zero_count))
                      (read_prepare-IsValid f n {r = 0} {w = 0} v);
                kept = ap₂ ◌++◌ (settle-Leaves c g.fifo w law).0 (sym all);
                others = (settle-Leaves c g.fifo w law).1;
              }
          | inr some_bytes ↦
              let whole : (g.count == written) ≡ true =
                (==_iff g.count written).1
                  (sym (l ∙ length-slice g.fifo.buffer g.offset g.count)) in
              let (o', i') = read_done-Leaves law g.fifo g.count w1 in
              let (o2, i2) = settle-Leaves c done.0 done.1 law in
              record {
                count = g.count;
                fifo = done.0;
                world = settle c done.0 done.1;
                returns = rw (room, to_usb_try_send, some_bytes, whole) refl;
                valid = valid;
                kept =
                    ap₂ ◌++◌ (o2 ∙ o' ∙ o) (read_done-contents exec w1 g.fifo g.count)
                    ∙ append_assoc (outbox w) bytes (contents g.fifo)
                    ∙ ap (λ l. outbox w ++ l) (sym split);
                others = i2 ∙ i' ∙ i;
              }
        ]
  ]

  try_recv-Received :
      (c : Cdc) (f : Fifo) (w : W)
      → IsUsb c.index
      → IsValid f 0 0
      → Received f w (from_usb_try_recv usb exec exec_in_ms c f w)
  unfolding from_usb_try_recv
  try_recv-Received c f w law v = elim (Bool-cases (usb.tud_cdc_n_available c.index w == 0)) [
    | inl nothing ↦ record {
      count = 0;
      fifo = f;
      world = w;
      returns = rw (nothing, from_usb_try_recv) refl;
      valid = v;
      kept = refl;
      others = refl;
    }
    | inr ready ↦
        let g = write_prepare f (usb.tud_cdc_n_available c.index w) in
        let (bytes, w1) = usb.tud_cdc_n_read c.index g.count w in
        let fits : g.count ≤ length (inbox w) =
          omega
            (arith, write_prepare_count f (usb.tud_cdc_n_available c.index w) v, law.available w) in
        let (b, i, o) = law.received g.count w fits in
        let len : length bytes ≡ g.count =
          ap length b ∙ length-take g.count (inbox w) ∙ omega (arith, fits) in
        let done = write_done exec (store g.fifo g.offset bytes) g.count w1 in
        let (o', i') = write_done-Leaves law (store g.fifo g.offset bytes) g.count w1 in
        record {
          count = g.count;
          fifo = done.0;
          world = done.1;
          returns = rw (ready, from_usb_try_recv, (==_iff g.count (length bytes)).1 (sym len)) refl;
          valid = write_done-IsValid exec w1 (store g.fifo g.offset bytes) g.count {r = 0} {w = 0} (
              store-IsValid g.fifo g.offset bytes
                (write_prepare-IsValid f (usb.tud_cdc_n_available c.index w) v));
          kept =
              ap₂ ◌++◌
                (write_done-contents exec w1 f (usb.tud_cdc_n_available c.index w) bytes v len)
                (i' ∙ i)
              ∙ append_assoc (contents f) bytes (drop g.count (inbox w))
              ∙ ap (λ l. contents f ++ l)
                  (ap (λ l. l ++ drop g.count (inbox w)) b ∙ take-append-drop g.count (inbox w));
          others = o' ∙ o;
        }
  ]

  -- The end of the handler: it is to run again later, and the client is told of events.
  abbrev report : Cdc → Cdc → W → W
  report c c' w =
      let w' = exec_in_ms c.handler 100 w in if c'.events == 0 then w' else exec c'.on_event w'

  abbrev raised : Cdc → ℕ → ℕ → Cdc
  raised c sent received =
      raise_if_any usb exec exec_in_ms (raise_if_any usb exec exec_in_ms c sent event_tx) received
        event_rx

  report-Leaves : {index : ℕ} → IsUsb index → (c c' : Cdc) (w : W) → Leaves w (report c c' w)
  report-Leaves law c c' w = elim (Bool-cases (c'.events == 0)) [
    | inl none_raised ↦ rw none_raised (law.executed_later c.handler 100 w)
    | inr some_raised ↦ rw some_raised (
        Leaves-trans (law.executed_later c.handler 100 w)
          (law.executed c'.on_event (exec_in_ms c.handler 100 w)))
  ]

  in_order :
      {index : ℕ} {sending receiving : Option (ℕ × Fifo × W)}
      → IsUsb index
      → (c c' : Cdc) (to_usb from_usb : Fifo) (w : W) (s : Sent to_usb w sending)
      → (r : Received from_usb s.world receiving)
      → (outbox (report c c' r.world) ++ contents s.fifo ≡ outbox w ++ contents to_usb)
        × (contents r.fifo ++ inbox (report c c' r.world) ≡ contents from_usb ++ inbox w)
  in_order law c c' to_usb from_usb w s r =
      let (o, i) = report-Leaves law c c' r.world in
      (
        ap (λ l. l ++ contents s.fifo) (o ∙ r.others) ∙ s.kept,
        ap (λ l. contents r.fifo ++ l) i ∙ r.kept ∙ ap (λ l. contents from_usb ++ l) s.others,
      )

  -- A run of the handler, when the host has the interface open, with two FIFOs that no one else has a part of
  -- and TinyUSB as documented, returns: its assertions hold, no byte is lost, doubled or moved out of
  -- order in either direction, and both FIFOs stay valid.
  pub handle-in_order :
      (c : Cdc) (to_usb from_usb : Fifo) (w : W)
      → IsUsb c.index
      → usb.tud_cdc_n_connected c.index w ≡ true
      → IsValid to_usb 0 0
      → IsValid from_usb 0 0
      → (c' : Cdc) × (to_usb' : Fifo) × (from_usb' : Fifo) × (w' : W) × (handle usb exec exec_in_ms
            c to_usb from_usb w
          ≡ some (c', to_usb', from_usb', w'))
        × IsValid to_usb' 0 0
        × IsValid from_usb' 0 0
        × (outbox w' ++ contents to_usb' ≡ outbox w ++ contents to_usb)
        × (contents from_usb' ++ inbox w' ≡ contents from_usb ++ inbox w)
  unfolding handle
  handle-in_order c to_usb from_usb w law up v v' = elim (Bool-cases c.is_open) [
    | inl opened ↦
        let s = try_send-Sent c to_usb w law v in
        let r = try_recv-Received c from_usb s.world law v' in
        let c' = raised c s.count r.count in
        (
          c',
          s.fifo,
          r.fifo,
          report c c' r.world,
          simp (up, handle, opened, s.returns, r.returns) refl,
          s.valid,
          r.valid,
          (in_order law c c' to_usb from_usb w s r).0,
          (in_order law c c' to_usb from_usb w s r).1,
        )
    | inr closed ↦
        let o = raise (record c { is_open = true }) event_open in
        let s = try_send-Sent o to_usb w law v in
        let r = try_recv-Received o from_usb s.world law v' in
        let c' = raised o s.count r.count in
        (
          c',
          s.fifo,
          r.fifo,
          report c c' r.world,
          simp (up, handle, closed, s.returns, r.returns) refl,
          s.valid,
          r.valid,
          (in_order law c c' to_usb from_usb w s r).0,
          (in_order law c c' to_usb from_usb w s r).1,
        )
  ]
