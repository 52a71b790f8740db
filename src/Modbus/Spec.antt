-- ===== src/Modbus/Spec.antt =====
-- What a Modbus server promises for each request but the device identification: the reply as a value,
-- and the frame that carries it. src/modbus/modbus.c builds the frame in its buffer.
mod Pack
mod Objects
pub use Objects.{objects, listing}
pub use Pack.{packed, packed-nil, packed-off, packed-on, raise}
use picore.Base.{
  ℕ, zero, suc, ◌+◌, ◌*◌, ◌/◌, ◌%◌, ◌==◌, Bool, true, false, not, ◌&&◌, Option, none, some, List,
  [], ◌∷◌, ◌++◌, if◌then◌else◌, ltb, length, bit_or, shr, u8, u16, get_or,
}
use picore.Endian.{be16_na_read}
use picore.Modbus.{
  ModbusError, success, illegal_function, illegal_data_value, server_device_failure, code, succeeds,
  Handler,
}
use picore.Modbus.Crc.{crc_init, crc_update, finalize, serialize}

pub data Reply : Type 0 where
  exception : ModbusError → Reply
  body : List ℕ → Reply

-- The frame without its checksum, and with it.
abbrev pub payload : ℕ → ℕ → Reply → List ℕ
payload addr func (exception err) = addr ∷ u8 (bit_or func 0x80) ∷ code err ∷ []
payload addr func (body bytes) = addr ∷ func ∷ bytes

abbrev pub sealed : List ℕ → List ℕ
sealed bytes = bytes ++ serialize (finalize (crc_update crc_init bytes))

-- Big-endian words.
abbrev pub words : List ℕ → List ℕ
words [] = []
words (v ∷ vs) = u8 (shr v 8) ∷ u8 v ∷ words vs

module _ {W : Type 0} {A : Type 0} where
  -- The values at `n` consecutive addresses, up to the first error.
  abbrev pub fetch : (ℕ → W → ModbusError × A × W) → ℕ → ℕ → ℕ → W → ModbusError × List A × W
  fetch getter addr zero off w = (success, [], w)
  fetch getter addr (suc n) off w =
      let (err, value, w') = getter (u16 (addr + off)) w in
      let (err', values, w'') = fetch getter addr n (off + 1) w' in
      if succeeds err then (err', value ∷ values, w'') else (err, [], w')

  -- The reply to a read of values that `encode` turns into bytes.
  abbrev pub read :
      ℕ → (List A → List ℕ) → Option (ℕ → W → ModbusError × A × W) → ℕ → ℕ → W → Reply × W
  read bytes encode getter addr count w =
      if ltb 250 bytes then (exception server_device_failure, w) else (elim getter [
        | none ↦ (exception illegal_function, w)
        | some get ↦
            let (err, values, w') = fetch get addr count 0 w in
            (if succeeds err then body (u8 bytes ∷ encode values) else exception err, w')
      ])

  abbrev pub store_one : Option (ℕ → A → W → ModbusError × W) → ℕ → A → W → ModbusError × W
  store_one none addr value w = (illegal_function, w)
  store_one (some set) addr value w = set addr value w

  -- The stores of a list of values at consecutive addresses, up to the first error.
  abbrev pub store : Option (ℕ → A → W → ModbusError × W) → ℕ → ℕ → List A → W → ModbusError × W
  store setter addr off [] w = (success, w)
  store setter addr off (v ∷ vs) w =
      let (err, w') = store_one setter (u16 (addr + off)) v w in
      let rest = store setter addr (off + 1) vs w' in if succeeds err then rest else (err, w')

-- The values of a request, by a function of their number.
abbrev pub tabulate : {A : Type 0} → (ℕ → A) → ℕ → ℕ → List A
tabulate value zero off = []
tabulate value (suc n) off = value off ∷ tabulate value n (off + 1)

module _ {W : Type 0} where
  -- The reply to a store whose result is `stored`: the two words, or the error.
  abbrev pub confirm : ℕ → ℕ → ModbusError × W → Reply × W
  confirm a b (err, w) = (if succeeds err then body (words (a ∷ b ∷ [])) else exception err, w)

  -- The reply to the writing of `count` values from `addr` on; the request must have `size` bytes.
  abbrev pub write_many :
      {A : Type 0}
      → Option (ℕ → A → W → ModbusError × W)
      → Bool
      → List ℕ
      → (ℕ → A)
      → ℕ
      → W
      → Reply × W
  write_many setter counted request value size w =
      let address = be16_na_read request 2 in
      let count = be16_na_read request 4 in
      if counted && (get_or request 6 0 + 9 == size)
      then confirm address count (store setter address 0 (tabulate value count 0) w)
      else (exception illegal_data_value, w)

  -- The reply to a request, and what the handlers have done.
  abbrev pub reply : Handler W → List ℕ → ℕ → ℕ → W → Reply × W
  reply handler request func size w =
      let address = be16_na_read request 2 in
      let count = be16_na_read request 4 in
      let bytes = (count + 7) / 8 in
      let on = not (count == 0) in
      if func == 1
      then read bytes (packed bytes) handler.coil_get address count w
      else (if func == 2
          then read bytes (packed bytes) handler.discrete_input_get address count w
          else (if func == 3
              then read (count * 2) words handler.holding_register_get address count w
              else (if func == 4
                  then read (count * 2) words handler.input_register_get address count w
                  else (if func == 6
                      then confirm address count
                          (store_one handler.holding_register_set address count w)
                      else (if func == 5
                          then confirm address (if on then 0xff00 else 0)
                              (store_one handler.coil_set address on w)
                          else (if func == 16
                              then write_many handler.holding_register_set
                                  (count == get_or request 6 0 / 2) request
                                  (λ off. be16_na_read request (7 + off * 2)) size w
                              else (if func == 15
                                  then write_many handler.coil_set (bytes == get_or request 6 0)
                                      request
                                      (λ off.
                                        shr (get_or request (7 + off / 8) 0) (off % 8) % 2 == 1)
                                      size w
                                  else (exception illegal_function, w))))))))
