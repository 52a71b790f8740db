-- ===== src/Modbus/Request/Sent.antt =====
-- The frame that `bus_req_handle` of src/modbus/modbus.c leaves to be sent, byte for byte.
use picore.Base.{
  ℕ, zero, suc, ◌+◌, ◌≤◌, ◌<◌, ◌≡◌, ◌≢◌, ◌==◌, refl, sym, subst, ap, ap₂, ◌∙◌, arith, Bool, true,
  false, Option, none, some, List, [], ◌∷◌, if◌then◌else◌, ltb, length, take, get_or, set, blit,
  length-blit, get_or-set_self, length-set, bit_or, u8, u16,
}
use native.Mathlib.Nat.{mod-eq_of_lt}
use picore.Endian.{be16_na_read}
use picore.Fifo.{Fifo}
use picore.Modbus.{
  ModbusError, success, illegal_function, illegal_data_address, illegal_data_value,
  server_device_failure, code, succeeds, Bus, Handler,
}
use picore.Modbus.Crc.{crc_init, crc_update, serialize}
use picore.Modbus.Reads.{append}
use picore.Modbus.Spec.{Reply, exception, body, payload, sealed, reply}
use picore.Modbus.Request.{report, respond, serve, dispatch, answer, read_device_identification}
use picore.Modbus.Writes.{write_multiple_registers, write_multiple_coils}
use picore.Modbus.Request.Reply.{IsReply, report-IsReply, trailer}
use picore.Modbus.Request.Cases.{serve-IsReply}
use picore.Modbus.Request.Values.{written, Gives, regs_get_many-Gives}
use picore.Modbus.Request.Coils.{coils_get_many-Gives}
use picore.Modbus.Request.Stores.{
  write_single_register-Gives, write_single_coil-Gives, write_multiple-Gives,
}

module _ {W : Type 0} where
  pick :
      (start : List ℕ) (b : Bool) (x y : ModbusError × Bus × W) (p q : Reply × W)
      → Gives start x p
      → Gives start y q
      → Gives start (if b then x else y) (if b then p else q)
  pick start true x y p q g h = g
  pick start false x y p q g h = h

  serve-Gives :
      (handler : Handler W) (func : ℕ) (bus : Bus) (size : ℕ) (w : W)
      → length bus.buffer ≡ 256
      → bus.ptr ≡ 2
      → Gives (written bus) (serve handler func bus size w) (reply handler bus.buffer func size w)
  unfolding serve write_multiple_registers write_multiple_coils
  serve-Gives handler func bus size w len at =
      let start = written bus in
      let address = be16_na_read bus.buffer 2 in
      let count = be16_na_read bus.buffer 4 in
      pick start (func == 1) _ _ _ _
        (coils_get_many-Gives handler.coil_get address count bus w len at)
        (pick start (func == 2) _ _ _ _
          (coils_get_many-Gives handler.discrete_input_get address count bus w len at)
          (pick start (func == 3) _ _ _ _
            (regs_get_many-Gives handler.holding_register_get address count bus w len at)
            (pick start (func == 4) _ _ _ _
              (regs_get_many-Gives handler.input_register_get address count bus w len at)
              (pick start (func == 6) _ _ _ _
                (write_single_register-Gives bus w len at handler.holding_register_set)
                (pick start (func == 5) _ _ _ _
                  (write_single_coil-Gives bus w len at handler.coil_set)
                  (pick start (func == 16) _ _ _ _
                    (write_multiple-Gives bus w len at handler.holding_register_set _ _ size)
                    (pick start (func == 15) _ _ _ _
                      (write_multiple-Gives bus w len at handler.coil_set _ _ size)
                      (refl, refl, refl))))))))

respond-sealed :
    (t : Fifo) (a f : ℕ) (bus : Bus)
    → IsReply t a f bus
    → (bus' : Bus) × (respond bus ≡ some bus')
      × (bus'.tx ≡ t)
      × (bus'.ptr ≡ 0)
      × (bus'.rsp_size ≤ 256)
      × (0 < bus'.rsp_size)
      × (length bus'.buffer ≡ 256)
      × (take bus'.rsp_size bus'.buffer ≡ sealed (written bus))
unfolding respond
respond-sealed t a f bus r =
    let room : ltb 256 (bus.ptr + 2) ≡ false = ground (arith, r.fits) in
    let small : u16 (bus.ptr + 2) ≡ bus.ptr + 2 = omega (arith, r.fits) in
    let crc = serialize (crc_update crc_init (written bus)) in
    (
      record bus { buffer = blit bus.buffer bus.ptr crc; rsp_size = u16 (bus.ptr + 2); ptr = 0 },
      rw room refl,
      r.sends_to,
      refl,
      omega (arith, small, r.fits),
      omega (arith, small),
      length-blit bus.buffer bus.ptr crc ∙ r.size,
      ap (λ n. take n (blit bus.buffer bus.ptr crc)) small
          ∙ trailer bus.buffer bus.ptr _ _ (omega (arith, r.size, r.fits)),
    )

take_two : (xs : List ℕ) → 2 ≤ length xs → take 2 xs ≡ get_or xs 0 0 ∷ get_or xs 1 0 ∷ []
take_two [] le = absurd (omega arith)
take_two (x ∷ []) le = absurd (omega arith)
take_two (x ∷ y ∷ xs) le = refl

take_three :
    (xs : List ℕ) → 3 ≤ length xs → take 3 xs ≡ get_or xs 0 0 ∷ get_or xs 1 0 ∷ get_or xs 2 0 ∷ []
take_three [] le = absurd (omega arith)
take_three (x ∷ []) le = absurd (omega arith)
take_three (x ∷ y ∷ []) le = absurd (omega arith)
take_three (x ∷ y ∷ z ∷ xs) le = refl

set-get_or : (xs : List ℕ) (i : ℕ) → set xs i (get_or xs i 0) ≡ xs
set-get_or [] i = refl
set-get_or (x ∷ xs) zero = refl
set-get_or (x ∷ xs) (suc i) = ap (λ l. x ∷ l) (set-get_or xs i)

code_byte : (err : ModbusError) → u8 (code err) ≡ code err
code_byte success = refl
code_byte illegal_function = refl
code_byte illegal_data_address = refl
code_byte illegal_data_value = refl
code_byte server_device_failure = refl

report-payload :
    (err : ModbusError) (t : Fifo) (a f : ℕ) (bus : Bus)
    → IsReply t a f bus
    → written (report err bus) ≡ payload a f (exception err)
unfolding report
report-payload err t a f bus r =
    let q = report-IsReply err t a f bus r in
    let b1 = set bus.buffer 1 (u8 (bit_or (get_or bus.buffer 1 0) 0x80)) in
    let third : get_or (set b1 2 (u8 (code err))) 2 0 ≡ code err =
      get_or-set_self b1 2 (u8 (code err)) 0
        (omega (arith, length-set bus.buffer 1 (u8 (bit_or (get_or bus.buffer 1 0) 0x80)), r.size))
      ∙ code_byte err in
    take_three _ (omega (arith, q.size))
    ∙ ap₂ (λ x y. x ∷ y ∷ get_or (set b1 2 (u8 (code err))) 2 0 ∷ []) q.first q.second
    ∙ ap (λ z. a ∷ u8 (bit_or f 0x80) ∷ z ∷ []) third

module _ {W : Type 0} where
  -- `bus_req_handle` from its labels `error` and `respond` on.
  abbrev pub conclude : W → Option Bus → Option (Bool × Bus × W)
  conclude w responded = elim responded [ none ↦ none | some bus' ↦ some (true, bus', w) ]

  abbrev pub finish : ModbusError × Bus × W → Option (Bool × Bus × W)
  finish (err, bus, w) = conclude w (respond (if succeeds err then bus else report err bus))

  finish_lem :
      (err : ModbusError) (bus : Bus) (w w' : W) (b : Bool) {bus' : Bus}
      → succeeds err ≡ b
      → respond (if b then bus else report err bus) ≡ some bus'
      → w ≡ w'
      → finish (err, bus, w) ≡ some (true, bus', w')
  finish_lem err bus w w' b {bus'} e r world =
      ap (λ c. conclude w (respond (if c then bus else report err bus))) e
      ∙ ap (conclude w) r
      ∙ ap (λ v. some (true, bus', v)) world

  pub record Sends (t : Fifo) (a f : ℕ) (result : Option (Bool × Bus × W)) (p : Reply × W)
      : Type 0 where
    pub after : Bus
    pub returns : result ≡ some (true, after, p.1)
    pub fields :
        (after.tx ≡ t)
        × (after.ptr ≡ 0)
        × (after.rsp_size ≤ 256)
        × (0 < after.rsp_size)
        × (length after.buffer ≡ 256)
    pub frame : take after.rsp_size after.buffer ≡ sealed (payload a f p.0)

  pub finish-Sends :
      (t : Fifo) (a f : ℕ) (x : ModbusError × Bus × W) (p : Reply × W)
      → Gives (a ∷ f ∷ []) x p
      → IsReply t a f x.1
      → Sends t a f (finish x) p
  finish-Sends t a f (err, bus, w) (exception err', w') (same, bad, world) r =
      let (bus', e, tx, ptr, size, pos, len, sent) =
        respond-sealed t a _ (report err bus) (report-IsReply err t a f bus r) in
      let failed : succeeds err ≡ false = ap succeeds same ∙ bad in
      record {
        after = bus';
        returns = finish_lem err bus w w' false failed e world;
        fields = (tx, ptr, size, pos, len);
        frame =
            sent
            ∙ ap sealed (report-payload err t a f bus r ∙ ap (λ c. payload a f (exception c)) same);
      }
  finish-Sends t a f (err, bus, w) (body bytes, w') (ok, shown, world) r =
      let (bus', e, tx, ptr, size, pos, len, sent) = respond-sealed t a f bus r in
      record {
        after = bus';
        returns = finish_lem err bus w w' true ok e world;
        fields = (tx, ptr, size, pos, len);
        frame = sent ∙ ap sealed shown;
      }

module _ {W : Type 0} (handler : Handler W) (fuel : ℕ) (bus : Bus) (size : ℕ) (w : W) where
  abbrev pub func : ℕ
  func = get_or bus.buffer 1 0

  abbrev pub started : Bus
  started = record bus { ptr = 2; rsp_size = 0 }

  -- The reply that the request in the buffer calls for, and what the handlers have done.
  abbrev pub called_for : Reply × W
  called_for = reply handler bus.buffer func size w

  started-IsReply :
      length bus.buffer ≡ 256
      → get_or bus.buffer 0 0 ≡ bus.addr
      → IsReply bus.tx bus.addr func started
  started-IsReply len mine = record {
    size = len;
    first = mine;
    second = refl;
    from = omega arith;
    fits = omega arith;
    sends_to = refl;
  }

  -- The two bytes stored at the start are those of the request.
  pub headed-started :
      bus.addr < 256
      → func < 256
      → get_or bus.buffer 0 0 ≡ bus.addr
      → append (append (record bus { ptr = 0; rsp_size = 0 }) bus.addr) func ≡ started
  headed-started small byte mine =
      let first : set bus.buffer 0 (u8 bus.addr) ≡ bus.buffer =
        ap (set bus.buffer 0) (mod-eq_of_lt small ∙ sym mine) ∙ set-get_or bus.buffer 0 in
      let second : set bus.buffer 1 (u8 func) ≡ bus.buffer =
        ap (set bus.buffer 1) (mod-eq_of_lt byte) ∙ set-get_or bus.buffer 1 in
      ap (λ b. record started { buffer = set b 1 (u8 func) }) first
      ∙ ap (λ b. record started { buffer = b }) second

  pub answer-Sends :
      length bus.buffer ≡ 256
      → bus.addr < 256
      → func < 256
      → get_or bus.buffer 0 0 ≡ bus.addr
      → func ≢ read_device_identification
      → Sends bus.tx bus.addr func (answer handler fuel bus size w) called_for
  unfolding answer dispatch
  answer-Sends len small byte mine ne =
      let at : (get_or bus.buffer 0 0 == bus.addr) ≡ true = ground (arith, mine) in
      let other : (func == read_device_identification) ≡ false = ground (arith, ne) in
      let start : take 2 bus.buffer ≡ bus.addr ∷ func ∷ [] =
        take_two bus.buffer (omega (arith, len)) ∙ ap (λ a. a ∷ func ∷ []) mine in
      let g =
        subst (λ l. Gives l (serve handler func started size w) called_for) start
          (serve-Gives handler func started size w len refl) in
      let s = finish-Sends bus.tx bus.addr func (serve handler func started size w) called_for g (
        serve-IsReply bus.tx bus.addr func handler func started size w (started-IsReply len mine)
          refl) in
      record {
        after = s.after;
        returns =
            rw (at, other)
              (ap (λ b. finish (serve handler func b size w)) (headed-started small byte mine)
                ∙ s.returns);
        fields = s.fields;
        frame = s.frame;
      }

  -- In a buffer of 256 bytes, with an address and a function that are bytes, a request for this
  -- address other than a device identification is answered as the specification says: the handlers
  -- have done to the state what it says, and the frame to send is the address, the function and the
  -- body, or the address, the marked function and the code of the error, followed by the checksum.
  pub answer-sealed :
      length bus.buffer ≡ 256
      → bus.addr < 256
      → func < 256
      → get_or bus.buffer 0 0 ≡ bus.addr
      → func ≢ read_device_identification
      → (bus' : Bus) × (answer handler fuel bus size w ≡ some (true, bus', called_for.1))
        × (take bus'.rsp_size bus'.buffer ≡ sealed (payload bus.addr func called_for.0))
  answer-sealed len small byte mine ne =
      let s = answer-Sends len small byte mine ne in (s.after, s.returns, s.frame)
