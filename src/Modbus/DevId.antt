-- ===== src/Modbus/DevId.antt =====
-- `MODBUS_READ_DEVICE_IDENTIFICATION` of `bus_req_handle` in src/modbus/modbus.c.
use picore.Base.{
  ℕ, zero, suc, ◌+◌, ◌==◌, true, false, not, Option, none, some, List, if◌then◌else◌, ltb, leb,
  length, take, get_or, set, blit, sub32, u8, u16,
}
use picore.Modbus.{ModbusError, success, illegal_data_value, Bus, buffer_size}

abbrev pub put : Bus → ℕ → ℕ → Bus
put bus i value = record bus { buffer = set bus.buffer i (u8 value) }

-- The objects that a request of level `mode` asks for end here; `none` is no level.
abbrev pub last_object_id : ℕ → Option ℕ
last_object_id mode =
    if mode == 1
    then some 0x02
    else (if mode == 2 then some 0x7f else (if mode == 3 then some 0xff else none))

-- One object behind those already there, at most 64 of its bytes.
abbrev pub add_object : Bus → ℕ → List ℕ → Bus
add_object bus i text =
    let bus1 = put (put bus bus.ptr i) (bus.ptr + 1) (length text) in
    let bus2 = record bus1 {
      buffer = blit bus1.buffer (bus.ptr + 2) text;
      ptr = u16 (bus.ptr + (length text + 2));
    } in
    put bus2 7 (get_or bus2.buffer 7 0 + 1)

-- The two bytes that tell the client whether, and from where, to ask again.
abbrev pub more : ℕ → Bus → Bus
more last bus = if leb last (get_or bus.buffer 6 0) then put (put bus 5 0) 6 0 else put bus 5 0xff

abbrev pub devid_header : Bus → Bus
devid_header bus =
    let bus1 = put (put (put (put bus 4 0x83) 5 0) 6 0) 7 0 in record bus1 { ptr = 8 }

module _ {W : Type 0} where
  abbrev pub call_devid : Option (ℕ → W → Option (List ℕ) × W) → ℕ → W → Option (List ℕ) × W
  call_devid none i w = (none, w)
  call_devid (some devid) i w = devid i w

  -- The loop over the objects on fuel. `none` is a loop that goes on, or a store behind the end of
  -- the buffer.
  unfoldable pub devid_loop :
      Option (ℕ → W → Option (List ℕ) × W) → ℕ → ℕ → ℕ → Bus → W → Option (Bus × W)
  devid_loop devid last zero i bus w = none
  devid_loop devid last (suc fuel) i bus w =
      let left = sub32 (sub32 buffer_size 4) bus.ptr in
      let (answer, w') = call_devid devid i w in
      let bus1 = put bus 6 (i + 1) in
      elim (leb i last) [
        | false ↦ some (bus, w)
        | true ↦ elim answer [
          | none ↦ devid_loop devid last fuel (u8 (i + 1)) bus1 w'
          | some string ↦
              let text = take 0x40 string in
              elim (ltb left (length text)) [
                | true ↦ some (put bus1 6 i, w')
                | false ↦ elim (ltb buffer_size (bus.ptr + 2 + length text)) [
                  | true ↦ none
                  | false ↦ devid_loop devid last fuel (u8 (i + 1)) (add_object bus1 i text) w'
                ]
              ]
        ]
      ]

  -- `buffer[2] = mei; buffer[3] = code;` store what stands there.
  unfoldable pub device_identification :
      Option (ℕ → W → Option (List ℕ) × W) → ℕ → Bus → W → Option (ModbusError × Bus × W)
  device_identification devid fuel bus w =
      if not (get_or bus.buffer 2 0 == 0xe)
      then some (illegal_data_value, bus, w)
      else (elim (last_object_id (get_or bus.buffer 3 0)) [
        | none ↦ some (illegal_data_value, bus, w)
        | some last ↦
            elim (devid_loop devid last fuel (get_or bus.buffer 4 0) (devid_header bus) w) [
              | none ↦ none
              | some (bus', w') ↦ some (success, more last bus', w')
            ]
      ])
