-- ===== src/Modbus/Crc.antt =====
-- src/modbus/modbus_crc16.c: the checksum of a frame.
pub mod Check
use picore.Base.{ℕ, zero, suc, ◌+◌, ◌%◌, List, [], ◌∷◌, bit_xor, get_or, shr, u8, u16}

-- `modbus_crc16_init`, and the state that `modbus_crc16_check_state` asks for.
abbrev pub crc_init : ℕ
crc_init = 0xffff

abbrev pub check_state : ℕ
check_state = 0

abbrev pub update_table : List ℕ
update_table = 0x0000 ∷ 0xa001 ∷ []

-- `modbus_crc16_insert1`
unfoldable pub insert1 : ℕ → ℕ → ℕ
insert1 state word = bit_xor (u16 (shr state 1)) (get_or update_table (bit_xor state word % 2) 0)

-- The inner loop of `modbus_crc16_update`: the next `n` bits of a byte, from bit `b` on.
abbrev pub insert_bits : ℕ → ℕ → ℕ → ℕ → ℕ
insert_bits zero b state word = state
insert_bits (suc n) b state word = insert_bits n (b + 1) (insert1 state (shr word b % 2)) word

unfoldable pub insert_byte : ℕ → ℕ → ℕ
insert_byte state word = insert_bits 8 0 state word

-- `modbus_crc16_update`
abbrev pub crc_update : ℕ → List ℕ → ℕ
crc_update state [] = state
crc_update state (word ∷ words) = crc_update (insert_byte state word) words

-- `modbus_crc16_initialize` and `modbus_crc16_finalize`
abbrev pub initialize : ℕ → ℕ
initialize init = init

abbrev pub finalize : ℕ → ℕ
finalize state = state

-- `modbus_crc16_serialize`
abbrev pub serialize : ℕ → List ℕ
serialize value = u8 value ∷ u8 (shr value 8) ∷ []
