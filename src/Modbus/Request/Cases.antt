-- ===== src/Modbus/Request/Cases.antt =====
-- Each case of `bus_req_handle` in src/modbus/modbus.c but the device identification, against the
-- reply under way.
use picore.Base.{
  ℕ, zero, suc, ◌+◌, ◌*◌, ◌/◌, ◌≤◌, ◌≡◌, refl, ◌∙◌, arith, Bool, true, false, inl, inr, ◌==◌,
  Option, none, some, get_or, set, blit, replicate, ltb, if◌then◌else◌, Bool-cases, u8, u16,
}
use picore.Endian.{be16_na_read, be16_na_write}
use picore.Endian.RoundTrip.{be16-kept}
use picore.Fifo.{Fifo}
use picore.Modbus.{ModbusError, illegal_function, succeeds, Bus, Handler}
use picore.Modbus.Reads.{append, mark, coils_loop, coils_get_many, regs_loop, regs_get_many}
use picore.Modbus.Writes.{
  echo, write_single_register, write_single_coil, write_multiple, write_multiple_registers,
  write_multiple_coils,
}
use picore.Modbus.Request.{
  serve, read_coils, read_discrete_inputs, read_holding_registers, read_input_registers,
  write_register, write_coil, write_registers, write_coils,
}
use picore.Modbus.Request.Reply.{IsReply, store-IsReply, blit-IsReply}

ptr-mark : (bus : Bus) (off : ℕ) (value : Bool) → (mark bus off value).ptr ≡ bus.ptr
ptr-mark bus off false = refl
ptr-mark bus off true = refl

module _ (t : Fifo) (a f : ℕ) where
  word-IsReply :
      (bus : Bus) (i v p : ℕ)
      → IsReply t a f bus
      → 2 ≤ i
      → 2 ≤ p
      → p ≤ 254
      → IsReply t a f (record bus { buffer = be16_na_write bus.buffer i v; ptr = p })
  word-IsReply bus i v p r lo q0 q1 =
      let (len, keep) = be16-kept bus.buffer i v in
      record {
        size = len ∙ r.size;
        first = keep 0 (omega arith) ∙ r.first;
        second = keep 1 (omega arith) ∙ r.second;
        from = q0;
        fits = q1;
        sends_to = r.sends_to;
      }

  echo-IsReply :
      (bus : Bus) (x y : ℕ) → IsReply t a f bus → bus.ptr ≤ 250 → IsReply t a f (echo bus x y)
  echo-IsReply bus x y r le =
      word-IsReply (record bus { buffer = be16_na_write bus.buffer bus.ptr x }) (bus.ptr + 2) y
        (u16 (bus.ptr + 4)) (word-IsReply bus bus.ptr x bus.ptr r r.from r.from r.fits)
        (omega (arith, r.from)) (omega (arith, r.from)) (omega arith)

  mark-IsReply :
      (bus : Bus) (off : ℕ) (value : Bool) → IsReply t a f bus → IsReply t a f (mark bus off value)
  mark-IsReply bus off false r = r
  mark-IsReply bus off true r =
      store-IsReply t a f bus (bus.ptr + off / 8) _ bus.ptr r (omega (arith, r.from)) r.from r.fits

  append-IsReply :
      (bus : Bus) (v : ℕ) → IsReply t a f bus → bus.ptr ≤ 253 → IsReply t a f (append bus v)
  append-IsReply bus v r le =
      store-IsReply t a f bus bus.ptr (u8 v) (u16 (bus.ptr + 1)) r r.from (omega (arith, r.from))
        (omega arith)

  -- Whatever a write case decides, it echoes or leaves the reply as it is.
  echoed :
      (b : Bool) (bus : Bus) (x y : ℕ)
      → IsReply t a f bus
      → bus.ptr ≡ 2
      → IsReply t a f (if b then echo bus x y else bus)
  echoed true bus x y r at = echo-IsReply bus x y r (omega (arith, at))
  echoed false bus x y r at = r

  moved-IsReply :
      (bus : Bus) (p : ℕ)
      → IsReply t a f bus
      → 2 ≤ p
      → p ≤ 254
      → IsReply t a f (record bus { ptr = p })
  moved-IsReply bus p r lo hi = record {
    size = r.size;
    first = r.first;
    second = r.second;
    from = lo;
    fits = hi;
    sends_to = r.sends_to;
  }

module _ {W : Type 0} (t : Fifo) (a f : ℕ) where
  coils_loop-IsReply :
      (getter : ℕ → W → ModbusError × Bool × W) (addr n off : ℕ) (bus : Bus) (w : W)
      → IsReply t a f bus
      → let (err, bus', w') = coils_loop getter addr n off bus w in
        IsReply t a f bus' × (bus'.ptr ≡ bus.ptr)
  unfolding coils_loop
  coils_loop-IsReply getter addr zero off bus w r = (r, refl)
  coils_loop-IsReply getter addr (suc n) off bus w r =
      let (err, value, w') = getter (u16 (addr + off)) w in
      elim (Bool-cases (succeeds err)) [
        | inl e ↦
            let (r', p) =
              coils_loop-IsReply getter addr n (off + 1) (mark bus off value) w'
                (mark-IsReply t a f bus off value r) in
            rw (e, coils_loop) (r', p ∙ ptr-mark bus off value)
        | inr e ↦ rw (e, coils_loop) (r, refl)
      ]

  regs_loop-IsReply :
      (getter : ℕ → W → ModbusError × ℕ × W) (addr n off : ℕ) (bus : Bus) (w : W)
      → IsReply t a f bus
      → bus.ptr + n * 2 ≤ 254
      → let (err, bus', w') = regs_loop getter addr n off bus w in IsReply t a f bus'
  unfolding regs_loop
  regs_loop-IsReply getter addr zero off bus w r le = r
  regs_loop-IsReply getter addr (suc n) off bus w r le =
      let (err, value, w') = getter (u16 (addr + off)) w in
      elim (Bool-cases (succeeds err)) [
        | inl e ↦
            rw (e, regs_loop)
              (regs_loop-IsReply getter addr n (off + 1) _ w'
                (word-IsReply t a f bus bus.ptr (u16 value) (u16 (bus.ptr + 2)) r r.from
                  (omega (arith, r.from)) (omega arith))
                (omega arith))
        | inr e ↦ rw (e, regs_loop) r
      ]

  coils-IsReply :
      (getter : Option (ℕ → W → ModbusError × Bool × W)) (addr count : ℕ) (bus : Bus) (w : W)
      → IsReply t a f bus
      → bus.ptr ≡ 2
      → let (err, bus', w') = coils_get_many getter addr count bus w in IsReply t a f bus'
  unfolding coils_get_many
  coils-IsReply none addr count bus w r at = elim (Bool-cases (ltb 250 ((count + 7) / 8))) [
    | inl e ↦ rw e r
    | inr e ↦ rw e r
  ]
  coils-IsReply (some get) addr count bus w r at = elim (Bool-cases (ltb 250 ((count + 7) / 8))) [
    | inl e ↦ rw e r
    | inr e ↦
        let n = (count + 7) / 8 in
        let bus1 = append bus n in
        let bus2 = record bus1 { buffer = blit bus1.buffer bus1.ptr (replicate n 0) } in
        let r1 = append-IsReply t a f bus n r (omega (arith, at)) in
        let r2 = blit-IsReply t a f bus1 bus1.ptr (replicate n 0) r1 r1.from in
        let (r3, p) = coils_loop-IsReply get addr count 0 bus2 w r2 in
        let three : bus1.ptr ≡ 3 = omega (arith, at) in
        let le : n ≤ 250 = ground (arith, e) in
        elim (Bool-cases (succeeds (coils_loop get addr count 0 bus2 w).0)) [
          | inl ok ↦
              rw (e, ok)
                (moved-IsReply t a f _ _ r3 (omega (arith, p, three)) (omega (arith, p, three)))
          | inr bad ↦ rw (e, bad) r3
        ]
  ]

  regs-IsReply :
      (getter : Option (ℕ → W → ModbusError × ℕ × W)) (addr count : ℕ) (bus : Bus) (w : W)
      → IsReply t a f bus
      → bus.ptr ≡ 2
      → let (err, bus', w') = regs_get_many getter addr count bus w in IsReply t a f bus'
  unfolding regs_get_many
  regs-IsReply none addr count bus w r at = elim (Bool-cases (ltb 250 (count * 2))) [
    | inl e ↦ rw e r
    | inr e ↦ rw e r
  ]
  regs-IsReply (some get) addr count bus w r at = elim (Bool-cases (ltb 250 (count * 2))) [
    | inl e ↦ rw e r
    | inr e ↦ rw e (
        regs_loop-IsReply get addr count 0 (append bus (count * 2)) w
          (append-IsReply t a f bus (count * 2) r (omega (arith, at))) (ground (arith, e, at)))
  ]

  multiple-IsReply :
      {A : Type 0} (set : Option (ℕ → A → W → ModbusError × W)) (value : ℕ → A) (counted : Bool)
      (bus : Bus) (size : ℕ) (w : W)
      → IsReply t a f bus
      → bus.ptr ≡ 2
      → let (err, bus', w') = write_multiple set value counted bus size w in IsReply t a f bus'
  unfolding write_multiple
  multiple-IsReply set value false bus size w r at = r
  multiple-IsReply set value true bus size w r at =
      elim (Bool-cases (get_or bus.buffer 6 0 + 9 == size)) [
        | inl e ↦ rw e (echoed t a f _ bus _ _ r at)
        | inr e ↦ rw e r
      ]

  register-IsReply :
      (set : Option (ℕ → ℕ → W → ModbusError × W)) (bus : Bus) (w : W)
      → IsReply t a f bus
      → bus.ptr ≡ 2
      → let (err, bus', w') = write_single_register set bus w in IsReply t a f bus'
  unfolding write_single_register
  register-IsReply set bus w r at = echoed t a f _ bus _ _ r at

  coil-IsReply :
      (set : Option (ℕ → Bool → W → ModbusError × W)) (bus : Bus) (w : W)
      → IsReply t a f bus
      → bus.ptr ≡ 2
      → let (err, bus', w') = write_single_coil set bus w in IsReply t a f bus'
  unfolding write_single_coil
  coil-IsReply set bus w r at = echoed t a f _ bus _ _ r at

  pick :
      (b : Bool) (x y : ModbusError × Bus × W)
      → IsReply t a f x.1
      → IsReply t a f y.1
      → IsReply t a f (if b then x else y).1
  pick true x y p q = p
  pick false x y p q = q

  pub serve-IsReply :
      (handler : Handler W) (func : ℕ) (bus : Bus) (size : ℕ) (w : W)
      → IsReply t a f bus
      → bus.ptr ≡ 2
      → let (err, bus', w') = serve handler func bus size w in IsReply t a f bus'
  unfolding serve write_multiple_registers write_multiple_coils
  serve-IsReply handler func bus size w r at =
      let address = be16_na_read bus.buffer 2 in
      let count = be16_na_read bus.buffer 4 in
      let c0 = coils_get_many handler.coil_get address count bus w in
      let c1 = coils_get_many handler.discrete_input_get address count bus w in
      let c2 = regs_get_many handler.holding_register_get address count bus w in
      let c3 = regs_get_many handler.input_register_get address count bus w in
      let c4 = write_single_register handler.holding_register_set bus w in
      let c5 = write_single_coil handler.coil_set bus w in
      let c6 = write_multiple_registers handler.holding_register_set bus size w in
      let c7 = write_multiple_coils handler.coil_set bus size w in
      let d8 : ModbusError × Bus × W = (illegal_function, bus, w) in
      let d7 : ModbusError × Bus × W = if func == write_coils then c7 else d8 in
      let d6 : ModbusError × Bus × W = if func == write_registers then c6 else d7 in
      let d5 : ModbusError × Bus × W = if func == write_coil then c5 else d6 in
      let d4 : ModbusError × Bus × W = if func == write_register then c4 else d5 in
      let d3 : ModbusError × Bus × W = if func == read_input_registers then c3 else d4 in
      let d2 : ModbusError × Bus × W = if func == read_holding_registers then c2 else d3 in
      let d1 : ModbusError × Bus × W = if func == read_discrete_inputs then c1 else d2 in
      let d0 : ModbusError × Bus × W = if func == read_coils then c0 else d1 in
      let p7 =
        pick (func == write_coils) c7 d8 (multiple-IsReply handler.coil_set _ _ bus size w r at)
          r in
      let p6 =
        pick (func == write_registers) c6 d7
          (multiple-IsReply handler.holding_register_set _ _ bus size w r at) p7 in
      let p5 = pick (func == write_coil) c5 d6 (coil-IsReply handler.coil_set bus w r at) p6 in
      let p4 =
        pick (func == write_register) c4 d5
          (register-IsReply handler.holding_register_set bus w r at) p5 in
      let p3 =
        pick (func == read_input_registers) c3 d4
          (regs-IsReply handler.input_register_get address count bus w r at) p4 in
      let p2 =
        pick (func == read_holding_registers) c2 d3
          (regs-IsReply handler.holding_register_get address count bus w r at) p3 in
      let p1 =
        pick (func == read_discrete_inputs) c1 d2
          (coils-IsReply handler.discrete_input_get address count bus w r at) p2 in
      let p0 =
        pick (func == read_coils) c0 d1 (coils-IsReply handler.coil_get address count bus w r at)
          p1 in
      p0
