-- ===== src/Modbus/Frame.antt =====
-- `modbus_req_frame_len` and `modbus_rsp_frame_len` of src/modbus/modbus.c: the size of the frame
-- that the first bytes announce, 0 where they do not tell.
use picore.Base.{
  ℕ, zero, suc, ◌+◌, ◌==◌, ◌||◌, Bool, true, false, Option, none, some, List, if◌then◌else◌, ltb,
  leb, get_or,
}
use picore.Modbus.{buffer_size}
use picore.Modbus.Request.{
  read_coils, read_discrete_inputs, read_holding_registers, read_input_registers, write_coil,
  write_register, write_coils, write_registers, read_device_identification,
}

abbrev pub is_read : ℕ → Bool
is_read func =
    (func == read_coils)
    || (func == read_discrete_inputs)
    || (func == read_holding_registers)
    || (func == read_input_registers)

abbrev pub is_single_write : ℕ → Bool
is_single_write func = (func == write_coil) || (func == write_register)

abbrev pub is_multiple_write : ℕ → Bool
is_multiple_write func = (func == write_registers) || (func == write_coils)

unfoldable pub req_frame_len : List ℕ → ℕ → ℕ
req_frame_len bytes size =
    let func = get_or bytes 1 0 in
    if ltb size 2
    then 0
    else (if is_read func || is_single_write func
        then 8
        else (if is_multiple_write func
            then (if ltb size 7 then 0 else get_or bytes 6 0 + 9)
            else (if func == read_device_identification then 7 else 0)))

-- The loop over the objects of a device identification, `n` of them to go; `none` is a load behind
-- the end of the buffer.
unfoldable pub objects_len : List ℕ → ℕ → ℕ → ℕ → Option ℕ
objects_len bytes size zero point = some point
objects_len bytes size (suc n) point = elim (ltb size (point + 1)) [
  | true ↦ some 0
  | false ↦ elim (leb buffer_size (point + 1)) [
    | true ↦ none
    | false ↦ objects_len bytes size n (point + (get_or bytes (point + 1) 0 + 2))
  ]
]

unfoldable pub rsp_frame_len : List ℕ → ℕ → Option ℕ
rsp_frame_len bytes size =
    let func = get_or bytes 1 0 in
    if ltb size 2
    then some 0
    else (if leb 0x80 func
        then some 5
        else (if is_read func
            then (if ltb size 5 then some 0 else some (get_or bytes 2 0 + 5))
            else (if is_single_write func || is_multiple_write func
                then some 8
                else (if func == read_device_identification
                    then (if ltb size 7
                        then some 0
                        else objects_len bytes size (get_or bytes 7 0) 8)
                    else some 0))))
