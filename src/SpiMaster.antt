-- ===== src/SpiMaster.antt =====
-- src/spi_master/spi_master.c: transfers on an SPI bus and to a device on it. The SDK's functions
-- act on a state `W`; a NULL pointer is `none`, and what is stored through `miso` is returned.
pub mod Bitrev
pub mod Select
pub mod Returns
pub mod Reversed
mod Tests
use picore.Base.{
  ℕ, zero, suc, ◌+◌, ◌-◌, ◌/◌, ◌%◌, ◌==◌, Bool, true, false, not, Option, none, some, List, [],
  ◌++◌, if◌then◌else◌, ltb, length, take, drop, replicate, bit_and, bit_or, map,
}
use picore.Error.{Error, ok, inval}
use picore.SpiMaster.Bitrev.{bitrev, bitrev_buf}

-- What the driver uses of `hardware/spi.h` and `hardware/gpio.h`; the first argument is the instance
-- or the pin.
pub record Sdk (W : Type 0) : Type 0 where
  pub spi_init : ℕ → ℕ → W → W
  pub spi_set_format : ℕ → Bool → Bool → W → W
  pub spi_set_baudrate : ℕ → ℕ → W → W
  pub spi_write_read_blocking : ℕ → List ℕ → W → List ℕ × W
  pub spi_write_blocking : ℕ → List ℕ → W → W
  pub spi_read_blocking : ℕ → ℕ → ℕ → W → List ℕ × W
  pub gpio_set_function_spi : ℕ → W → W
  pub gpio_set_function_sio : ℕ → W → W
  pub gpio_init : ℕ → W → W
  pub gpio_set_pulls : ℕ → Bool → Bool → W → W
  pub gpio_set_dir : ℕ → Bool → W → W
  pub gpio_set_slew_rate : ℕ → Bool → W → W
  pub gpio_put : ℕ → Bool → W → W

-- `instance_for_pin`; a negative pin is `none`.
abbrev pub instance_for_pin : Option ℕ → Option ℕ
instance_for_pin none = none
instance_for_pin (some pin) = some (pin / 8 % 2)

-- `inst && (sck_inst != inst)`
abbrev pub differs : ℕ → Option ℕ → Bool
differs sck_inst none = false
differs sck_inst (some inst) = not (sck_inst == inst)

-- `struct pr_spi_device`, with the instance of its master.
pub record Device : Type 0 where
  pub instance_no : ℕ
  pub csn : ℕ
  pub bitrate : ℕ
  pub mode : ℕ

-- `PR_SPI_DEVICE_MODE_CSN_PP`, `PR_SPI_DEVICE_MODE_LSB_FIRST` and `enum pr_spi_transfer_flags`
abbrev pub is_push_pull : ℕ → Bool
is_push_pull mode = not (mode / 4 % 2 == 0)

abbrev pub is_lsb_first : ℕ → Bool
is_lsb_first mode = not (mode / 8 % 2 == 0)

abbrev pub no_cs : ℕ
no_cs = 0

abbrev pub keep_cs : ℕ
keep_cs = 1

abbrev pub bitrev_chunk_size : ℕ
bitrev_chunk_size = 1600

abbrev pub at_most : ℕ → ℕ → ℕ
at_most bound n = if ltb bound n then bound else n

module _ {W : Type 0} (sdk : Sdk W) where
  open sdk use {
    spi_init, spi_set_format, spi_set_baudrate, spi_write_read_blocking, spi_write_blocking,
    spi_read_blocking, gpio_set_function_spi, gpio_set_function_sio, gpio_init, gpio_set_pulls,
    gpio_set_dir, gpio_set_slew_rate, gpio_put,
  }

  abbrev pub init_pin : Option ℕ → Bool → Bool → W → W
  init_pin none out slew w = w
  init_pin (some pin) out slew w =
      let w1 =
        gpio_set_dir pin out (gpio_set_pulls pin false false (gpio_set_function_spi pin w)) in
      if slew then gpio_set_slew_rate pin true w1 else w1

  -- `pr_spi_master_init`: the error, and the instance that the master has from then on.
  unfoldable pub master_init : Option ℕ → Option ℕ → Option ℕ → Option ℕ → W → Error × Option ℕ × W
  master_init master none mosi miso w = (inval, master, w)
  master_init master (some sck) mosi miso w =
      let sck_inst = sck / 8 % 2 in
      if differs sck_inst (instance_for_pin mosi)
      then (inval, master, w)
      else (if differs sck_inst (instance_for_pin miso) then (inval, master, w) else (
        ok,
        some sck_inst,
        init_pin miso false false
            (init_pin mosi true true (init_pin (some sck) true true (spi_init sck_inst 100000 w))),
      ))

  -- The loop that sends `left` zero bytes, on fuel.
  unfoldable pub zeros_loop : ℕ → ℕ → ℕ → W → Option W
  zeros_loop zero inst left w = none
  zeros_loop (suc fuel) inst left w = elim (left == 0) [
    | true ↦ some w
    | false ↦
        zeros_loop fuel inst (left - at_most 16 left)
          (spi_write_blocking inst (replicate (at_most 16 left) 0) w)
  ]

  abbrev pub configure : ℕ → ℕ → ℕ → W → W
  configure inst spi_mode bitrate w =
      spi_set_baudrate inst bitrate
        (spi_set_format inst (not (spi_mode / 2 % 2 == 0)) (not (spi_mode % 2 == 0)) w)

  -- `pr_spi_master_transfer`; `into` tells whether `miso` is not NULL.
  unfoldable pub master_transfer : ℕ → ℕ → ℕ → Option (List ℕ) → Bool → ℕ → W → Option (List ℕ × W)
  master_transfer inst spi_mode bitrate (some mosi) true byte_count w =
      some (spi_write_read_blocking inst (take byte_count mosi) (configure inst spi_mode bitrate w))
  master_transfer inst spi_mode bitrate (some mosi) false byte_count w =
      some ([], spi_write_blocking inst (take byte_count mosi) (configure inst spi_mode bitrate w))
  master_transfer inst spi_mode bitrate none true byte_count w =
      some (spi_read_blocking inst 0 byte_count (configure inst spi_mode bitrate w))
  master_transfer inst spi_mode bitrate none false byte_count w =
      elim (zeros_loop (suc byte_count) inst byte_count (configure inst spi_mode bitrate w)) [
        | none ↦ none
        | some w' ↦ some ([], w')
      ]

  -- `pr_spi_device_init`
  unfoldable pub device_init : ℕ → ℕ → ℕ → ℕ → W → Device × W
  device_init master csn mode bitrate w =
      let w1 = gpio_set_pulls csn true false (gpio_set_function_sio csn (gpio_init csn w)) in
      let idle = is_push_pull mode in
      (
        record { instance_no = master; csn = csn; bitrate = bitrate; mode = mode },
        gpio_set_dir csn idle (gpio_put csn idle w1),
      )

  abbrev pub select : Device → W → W
  select dev w =
      if is_push_pull dev.mode then gpio_put dev.csn false w else gpio_set_dir dev.csn true w

  abbrev pub deselect : Device → W → W
  deselect dev w =
      if is_push_pull dev.mode then gpio_put dev.csn true w else gpio_set_dir dev.csn false w

  -- The bytes of `mosi` from `offset` on that the next chunk sends, reversed.
  abbrev pub tx_chunk : Option (List ℕ) → ℕ → ℕ → Option (List ℕ)
  tx_chunk none offset chunk = none
  tx_chunk (some mosi) offset chunk = some (map bitrev (take chunk (drop offset mosi)))

  -- The loop over the chunks, on fuel; `out` is what is stored at `miso` so far.
  unfoldable pub lsb_loop :
      ℕ → Device → Option (List ℕ) → Bool → ℕ → ℕ → List ℕ → W → Option (List ℕ × W)
  lsb_loop zero dev mosi into byte_count offset out w = none
  lsb_loop (suc fuel) dev mosi into byte_count offset out w = elim (ltb offset byte_count) [
    | false ↦ some (out, w)
    | true ↦
        let chunk = at_most bitrev_chunk_size (byte_count - offset) in
        elim (master_transfer dev.instance_no (dev.mode - 8) dev.bitrate
          (tx_chunk mosi offset chunk) into chunk w) [
            | none ↦ none
            | some (rx, w') ↦
                lsb_loop fuel dev mosi into byte_count (offset + chunk) (out ++ bitrev_buf rx) w'
          ]
  ]

  -- The transfer between the two changes of the chip select.
  unfoldable pub exchange : Device → Option (List ℕ) → Bool → ℕ → W → Option (List ℕ × W)
  exchange dev mosi into byte_count w =
      if is_lsb_first dev.mode
      then lsb_loop (suc byte_count) dev mosi into byte_count 0 [] w
      else master_transfer dev.instance_no dev.mode dev.bitrate mosi into byte_count w

  -- `pr_spi_device_transfer`
  unfoldable pub device_transfer : Device → Option (List ℕ) → Bool → ℕ → ℕ → W → Option (List ℕ × W)
  device_transfer dev mosi into byte_count flags w =
      elim (exchange dev mosi into byte_count
        (if bit_and flags no_cs == 0 then select dev w else w)) [
          | none ↦ none
          | some (rx, w') ↦
              some (rx, if bit_and flags (bit_or no_cs keep_cs) == 0 then deselect dev w' else w')
        ]
