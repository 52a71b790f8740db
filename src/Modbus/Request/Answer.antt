-- ===== src/Modbus/Request/Answer.antt =====
-- What `bus_req_handle` of src/modbus/modbus.c leaves in the buffer for `modbus_tx_try` to send.
use picore.Base.{
  ℕ, ◌==◌, ◌<◌, ◌≡◌, ◌≢◌, refl, ◌∙◌, arith, true, false, inl, inr, some, length, get_or, set,
  bit_or, if◌then◌else◌, Bool-cases, length-set, get_or-set_ne, get_or-set_self, u8,
}
use picore.Modbus.{ModbusError, succeeds, Bus, Handler}
use picore.Modbus.Reads.{append}
use picore.Modbus.Request.{report, serve, dispatch, answer, read_device_identification}
use picore.Modbus.Request.Reply.{IsReply, report-IsReply, IsAnswer, respond-IsAnswer}
use picore.Modbus.Request.Cases.{serve-IsReply}

module _ {W : Type 0} (handler : Handler W) (fuel : ℕ) (bus : Bus) (size : ℕ) (w : W) where
  abbrev cleared : Bus
  cleared = record bus { ptr = 0; rsp_size = 0 }

  abbrev headed : Bus
  headed = append (append cleared bus.addr) (get_or bus.buffer 1 0)

  abbrev served : ModbusError × Bus × W
  served = serve handler (get_or bus.buffer 1 0) headed size w

  -- A request whose first byte is not the server's address is dropped: nothing is sent, no handler
  -- is called, and the buffer stands ready for the next frame.
  answer-other :
      get_or bus.buffer 0 0 ≢ bus.addr → answer handler fuel bus size w ≡ some (false, cleared, w)
  unfolding answer
  answer-other ne = ground (arith, ne)

  -- The function of the reply: that of the request, with the top bit set in an error report.
  abbrev reply_function : ℕ
  reply_function =
      if succeeds served.0 then get_or bus.buffer 1 0 else u8 (bit_or (get_or bus.buffer 1 0) 0x80)

  headed-IsReply :
      length bus.buffer ≡ 256
      → bus.addr < 256
      → get_or bus.buffer 1 0 < 256
      → IsReply bus.tx bus.addr (get_or bus.buffer 1 0) headed
  headed-IsReply len small byte =
      let b0 = set bus.buffer 0 (u8 bus.addr) in
      let l0 : length b0 ≡ 256 = length-set bus.buffer 0 (u8 bus.addr) ∙ len in
      let func = u8 (get_or bus.buffer 1 0) in
      record {
        size = length-set b0 1 func ∙ l0;
        first =
            get_or-set_ne b0 {i = 1} {j = 0} func 0 (λ e. omega arith)
            ∙ get_or-set_self bus.buffer 0 (u8 bus.addr) 0 (omega arith)
            ∙ omega arith;
        second = get_or-set_self b0 1 func 0 (omega arith) ∙ omega arith;
        from = omega arith;
        fits = omega arith;
        sends_to = refl;
      }

  -- In a buffer of 256 bytes, with an address and a function that are bytes, a request for this
  -- address other than a device identification is answered, on every branch and whatever the
  -- handlers return: the frame to send lies in the buffer, begins with the address and the function,
  -- the latter with its top bit set if and only if an error is reported, and passes the checksum
  -- test of a receiver.
  answer-IsAnswer :
      length bus.buffer ≡ 256
      → bus.addr < 256
      → get_or bus.buffer 1 0 < 256
      → get_or bus.buffer 0 0 ≡ bus.addr
      → get_or bus.buffer 1 0 ≢ read_device_identification
      → (bus' : Bus) × (answer handler fuel bus size w ≡ some (true, bus', served.2))
        × IsAnswer bus.addr reply_function bus'
  unfolding answer dispatch
  answer-IsAnswer len small byte mine ne =
      let r : IsReply bus.tx bus.addr (get_or bus.buffer 1 0) served.1 =
        serve-IsReply bus.tx bus.addr (get_or bus.buffer 1 0) handler (get_or bus.buffer 1 0) headed
          size w (headed-IsReply len small byte) refl in
      let at : (get_or bus.buffer 0 0 == bus.addr) ≡ true = ground (arith, mine) in
      let other : (get_or bus.buffer 1 0 == read_device_identification) ≡ false =
        ground (arith, ne) in
      elim (Bool-cases (succeeds served.0)) [
        | inl ok ↦
            let (b, e, q) = respond-IsAnswer bus.tx bus.addr (get_or bus.buffer 1 0) served.1 r in
            (b, rw (at, other, ok, e), rw ok q)
        | inr bad ↦
            let (b, e, q) =
              respond-IsAnswer bus.tx bus.addr _ (report served.0 served.1)
                (report-IsReply served.0 bus.tx bus.addr (get_or bus.buffer 1 0) served.1 r) in
            (b, rw (at, other, bad, e), rw bad q)
      ]
