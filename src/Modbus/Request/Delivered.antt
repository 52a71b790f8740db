-- ===== src/Modbus/Request/Delivered.antt =====
-- Serving a request of src/modbus/modbus.c and sending the reply, while the consumer of the transmit
-- FIFO reads.
use picore.Base.{
  ℕ, Option, none, subst, ◌<◌, ◌≤◌, ◌≡◌, ◌≢◌, Bool, if◌then◌else◌, sym, ap, ◌∙◌, arith, some, List,
  [], ◌++◌, get_or, length, take, append_assoc, append-nil,
}
use mathlib.Core.Option.{some-injective}
use picore.Fifo as Fifo
use picore.Fifo.Inv.{IsValid}
use picore.Fifo.Contents.{contents}
use picore.Fifo.Read.{read_round-Copied}
use picore.Modbus.{Bus, Handler}
use picore.Modbus.Spec.{sealed, payload}
use picore.Modbus.Request.{tx_try, req_handle, read_device_identification}
use picore.Modbus.Request.Transmit.{Progress, complete, underway, Sending, tx_try-Tried}
use picore.Modbus.Request.Sent.{answer-Sends, called_for, func}

-- The server, what its tasks and handlers act on, and what the FIFO's consumer has received.
pub record Line (W : Type 0) : Type 0 where
  pub bus : Bus
  pub world : W
  pub received : List ℕ

module _ {W : Type 0} (exec : Option ℕ → W → W) where
  -- The consumer reads a piece of at most `n` bytes.
  abbrev pub drained : Line W → ℕ → Line W
  drained s n =
      let (bytes, tx, w) = Fifo.read_round exec s.bus.tx s.world n 0 in
      record { bus = record s.bus { tx = tx }; world = w; received = s.received ++ bytes }

  -- The worker goes on with a reply that is not complete; the consumer reads at any time.
  pub data Step : Line W → Line W → Type 0 where
    resume :
        (s : Line W) (bus : Bus) (w : W)
        → s.bus.rsp_size ≢ 0
        → tx_try exec s.bus s.world ≡ some (bus, w)
        → Step s (record s { bus = bus; world = w })
    drain : (s : Line W) (n : ℕ) → n < 4294967296 → Step s (drained s n)

  pub data Reach (s : Line W) : Line W → Type 0 where
    here : Reach s s
    next : {t u : Line W} → Reach s t → Step t u → Reach s u

  module _ (before frame : List ℕ) where
    resumed :
        (s : Line W) (bus : Bus) (w : W)
        → s.bus.rsp_size ≢ 0
        → tx_try exec s.bus s.world ≡ some (bus, w)
        → IsValid s.bus.tx 0 0
        → length s.bus.buffer ≡ 256
        → s.bus.rsp_size ≤ 256
        → Progress before frame s.received s.bus
        → Sending before frame s.received bus
    resumed s bus w ne e valid size at_most (complete none_left ptr all) = absurd (ne none_left)
    resumed s bus w ne e valid size at_most (underway lt whole sent) =
        let t =
          tx_try-Tried exec before frame s.received s.bus s.world valid size at_most (omega arith)
            whole sent in
        let same : t.after ≡ bus = ap (λ p. p.0) (some-injective _ _ (sym t.returns ∙ e)) in
        subst (Sending before frame s.received) same t.sending

    moved :
        (s : Line W) (n : ℕ)
        → contents s.bus.tx
          ≡ (Fifo.read_round exec s.bus.tx s.world n 0).0 ++ contents (drained s n).bus.tx
        → Progress before frame s.received s.bus
        → Progress before frame (drained s n).received (drained s n).bus
    moved s n split (complete none_left ptr all) =
        complete none_left ptr
          (append_assoc s.received _ _ ∙ ap (λ l. s.received ++ l) (sym split) ∙ all)
    moved s n split (underway lt whole sent) =
        underway lt whole
          (append_assoc s.received _ _ ∙ ap (λ l. s.received ++ l) (sym split) ∙ sent)

    pub Step-Sending :
        {s t : Line W}
        → Step s t
        → Sending before frame s.received s.bus
        → Sending before frame t.received t.bus
    Step-Sending (resume s bus w ne e) h = resumed s bus w ne e h.valid h.size h.at_most h.progress
    Step-Sending (drain s n small) h =
        let c = read_round-Copied exec s.bus.tx s.world n 0 h.valid small (omega arith) in
        record {
          valid = c.valid;
          size = h.size;
          at_most = h.at_most;
          progress = moved s n c.split h.progress;
        }

    Reach-Sending :
        {s t : Line W}
        → Sending before frame s.received s.bus
        → Reach s t
        → Sending before frame t.received t.bus
    Reach-Sending h here = h
    Reach-Sending h (next r st) = Step-Sending st (Reach-Sending h r)

  module _ (handler : Handler W) (fuel : ℕ) (bus : Bus) (size : ℕ) (w : W) where
    -- The frame that answers the request in the buffer.
    abbrev pub answer_frame : List ℕ
    answer_frame =
        sealed
          (payload bus.addr (func handler fuel bus size w) (called_for handler fuel bus size w).0)

    abbrev sends : Option (Bool × Bus × W) → Option (Bus × W)
    sends answered = elim answered [
      | none ↦ none
      | some (again, bus', w') ↦ if again then tx_try exec bus' w' else some (bus', w')
    ]

    -- In a buffer of 256 bytes, with an address and a function that are bytes and a valid transmit
    -- FIFO into which no one else writes, a request for this address other than a device
    -- identification is served; and after any number of turns in which the worker goes on with the
    -- reply, until it is complete, and of reads of any size by the FIFO's consumer, in any order: what the
    -- consumer has received and what the FIFO holds are what it held before and the frame that answers
    -- the request, or the part of it that has been sent while the reply is not complete.
    pub req_handle-Sending :
        length bus.buffer ≡ 256
        → bus.addr < 256
        → get_or bus.buffer 1 0 < 256
        → get_or bus.buffer 0 0 ≡ bus.addr
        → get_or bus.buffer 1 0 ≢ read_device_identification
        → IsValid bus.tx 0 0
        → (bus' : Bus) × (w' : W) × (req_handle exec handler fuel bus size w ≡ some (bus', w'))
          × ((t : Line W)
              → Reach (record { bus = bus'; world = w'; received = [] }) t
              → Sending (contents bus.tx) answer_frame t.received t.bus)
    unfolding req_handle
    req_handle-Sending len small byte mine ne valid =
        let s = answer-Sends handler fuel bus size w len small byte mine ne in
        let (tx, ptr, at_most, pos, size') = s.fields in
        let none_sent : [] ++ contents s.after.tx
            ≡ contents bus.tx ++ take s.after.ptr answer_frame =
          ap contents tx
          ∙ sym (append-nil (contents bus.tx))
          ∙ ap (λ n. contents bus.tx ++ take n answer_frame) (sym ptr) in
        let t =
          tx_try-Tried exec (contents bus.tx) answer_frame [] s.after
            (called_for handler fuel bus size w).1 (subst (λ f. IsValid f 0 0) (sym tx) valid) size'
            at_most (omega (arith, ptr)) s.frame none_sent in
        (
          t.after,
          t.world,
          ap sends s.returns ∙ t.returns,
          λ u r. Reach-Sending (contents bus.tx) answer_frame t.sending r,
        )
