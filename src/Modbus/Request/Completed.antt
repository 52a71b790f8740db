-- ===== src/Modbus/Request/Completed.antt =====
-- A reply of src/modbus/modbus.c is sent to its end, when the consumer of the transmit FIFO goes on
-- reading.
use picore.Base.{
  ℕ, zero, suc, ◌+◌, ◌<◌, ◌≤◌, ◌≡◌, ◌≢◌, inl, inr, refl, ap, ◌∙◌, arith, true, false, Option, none,
  some, List, [], ◌++◌, ◌==◌, if◌then◌else◌, get_or, length,
}
use picore.Fifo.Inv.{IsValid}
use picore.Fifo.Contents.{contents}
use picore.Fifo.Read.{read_round-Copied}
use picore.Modbus.{Bus, Handler}
use picore.Modbus.Request.{tx_try, req_handle, read_device_identification}
use picore.Modbus.Request.Transmit.{complete, underway, Sending, Tried, tx_try-Tried}
use picore.Modbus.Request.Delivered.{
  Line, drain, Reach, drained, Step-Sending, answer_frame, req_handle-Sending,
}

module _ {W : Type 0} (exec : Option ℕ → W → W) (n : ℕ) where
  -- At most `rounds` times, while a reply is under way: the consumer reads a piece of at most `n`
  -- bytes, and the worker goes on.
  abbrev pub turns : ℕ → Line W → Option (Line W)
  turns zero s = some s
  turns (suc rounds) s =
      let d = drained exec s n in
      if s.bus.rsp_size == 0 then some s else elim (tx_try exec d.bus d.world) [
        | none ↦ none
        | some (bus, w) ↦ turns rounds (record d { bus = bus; world = w })
      ]

  -- The reply has been sent to its end.
  pub record Finished (before frame : List ℕ) (result : Option (Line W)) : Type 0 where
    pub last : Line W
    pub returns : result ≡ some last
    pub idle : (last.bus.rsp_size ≡ 0) × (last.bus.ptr ≡ 0)
    pub whole : last.received ++ contents last.bus.tx ≡ before ++ frame

  module _ (pos : 0 < n) (small : n < 4294967296) (before frame : List ℕ) where
    drained-free : (s : Line W) → IsValid s.bus.tx 0 0 → 0 < (drained exec s n).bus.tx.free
    drained-free s valid =
        let c = read_round-Copied exec s.bus.tx s.world n 0 valid small (omega arith) in
        omega (arith, c.count, c.counted, valid.whole, valid.rptr_in)

    resumed-Tried :
        (s : Line W)
        → Sending before frame s.received s.bus
        → s.bus.ptr < s.bus.rsp_size
        → let d = drained exec s n in Tried exec before frame d.received d.bus d.world
    resumed-Tried s h lt =
        let d = drained exec s n in
        let g = Step-Sending exec before frame (drain s n small) h in
        elim g.progress [
          | complete none_left ptr all ↦ absurd (omega (arith, none_left, lt))
          | underway lt' whole sent ↦
              tx_try-Tried exec before frame d.received d.bus d.world g.valid g.size g.at_most
                (omega arith) whole sent
        ]

    abbrev onward : ℕ → Line W → Option (Bus × W) → Option (Line W)
    onward rounds d result = elim result [
      | none ↦ none
      | some (bus, w) ↦ turns rounds (record d { bus = bus; world = w })
    ]

    turns-Finished :
        (rounds : ℕ) (s : Line W)
        → Sending before frame s.received s.bus
        → s.bus.rsp_size ≤ s.bus.ptr + rounds
        → Finished before frame (turns rounds s)
    turns-Finished zero s h le = elim h.progress [
      | complete none_left ptr all ↦ record {
        last = s;
        returns = refl;
        idle = (none_left, ptr);
        whole = all;
      }
      | underway lt whole sent ↦ absurd (omega arith)
    ]
    turns-Finished (suc rounds) s h le = elim h.progress [
      | complete none_left ptr all ↦
          let stops : (s.bus.rsp_size == 0) ≡ true = ground (arith, none_left) in
          rw stops (record { last = s; returns = refl; idle = (none_left, ptr); whole = all })
      | underway lt whole sent ↦
          let goes_on : (s.bus.rsp_size == 0) ≡ false = ground (arith, lt) in
          let t = resumed-Tried s h lt in
          let d = drained exec s n in
          let at : Line W = record d { bus = t.after; world = t.world } in
          let free = drained-free s h.valid in
          let closer : t.after.rsp_size ≤ t.after.ptr + rounds = elim t.ahead [
            | inl none_left ↦ omega arith
            | inr (size, ptr) ↦ omega (arith, size, ptr, free)
          ] in
          let rest = turns-Finished rounds at t.sending closer in
          rw goes_on (record {
            last = rest.last;
            returns = ap (onward rounds d) t.returns ∙ rest.returns;
            idle = rest.idle;
            whole = rest.whole;
          })
    ]

  -- In a buffer of 256 bytes, with an address and a function that are bytes and a valid transmit FIFO
  -- into which no one else writes, a request for this address other than a device identification is
  -- served; and however often the worker has gone on with the reply, and the FIFO's consumer has read,
  -- from then on 256 rounds of a read of at most `n` bytes, `n` from 1 to 2 ^ 32 - 1, and a turn of the
  -- worker are enough: the reply has been sent, the buffer stands ready for the next frame, and what
  -- the consumer has received and what the FIFO holds are what it held before and the whole frame.
  pub req_handle-Finished :
      (handler : Handler W) (fuel : ℕ) (bus : Bus) (size : ℕ) (w : W)
      → 0 < n
      → n < 4294967296
      → length bus.buffer ≡ 256
      → bus.addr < 256
      → get_or bus.buffer 1 0 < 256
      → get_or bus.buffer 0 0 ≡ bus.addr
      → get_or bus.buffer 1 0 ≢ read_device_identification
      → IsValid bus.tx 0 0
      → (bus' : Bus) × (w' : W) × (req_handle exec handler fuel bus size w ≡ some (bus', w'))
        × ((t : Line W)
            → Reach exec (record { bus = bus'; world = w'; received = [] }) t
            → Finished (contents bus.tx) (answer_frame exec handler fuel bus size w) (turns 256 t))
  req_handle-Finished handler fuel bus size w pos small len addr byte mine ne valid =
      let (bus', w', e, sending) =
        req_handle-Sending exec handler fuel bus size w len addr byte mine ne valid in
      let frame = answer_frame exec handler fuel bus size w in
      (
        bus',
        w',
        e,
        λ t r.
            let h = sending t r in
            turns-Finished pos small (contents bus.tx) frame 256 t h (omega (arith, h.at_most)),
      )
