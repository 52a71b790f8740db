-- ===== src/TinyUsb/Reset.antt =====
-- `PR_TINY_USB_IMPL` of src/tiny_usb/include/pr/tiny_usb.h: the task that runs TinyUSB, and the driver
-- of the interface that resets the board. TinyUSB's functions and constants, those of the SDK, and
-- `pr_task_exec` and `pr_task_init` are parameters and act on a state `W`.
use picore.Base.{ℕ, ◌==◌, Bool, true, false, not, ◌&&◌, List, [], ◌∷◌, if◌then◌else◌, leb, u8}

-- The fields of `tusb_desc_interface_t` that are read.
pub record Interface : Type 0 where
  pub interface_number : ℕ
  pub interface_class : ℕ
  pub interface_sub_class : ℕ
  pub interface_protocol : ℕ

abbrev pub subclass : ℕ
subclass = 0

abbrev pub protocol : ℕ
protocol = 1

abbrev pub request_bootsel : ℕ
request_bootsel = 1

abbrev pub request_flash : ℕ
request_flash = 2

-- `PR_RPI_RESET_DESCRIPTOR`; `desc_interface` is TUSB_DESC_INTERFACE and `vendor_specific`
-- TUSB_CLASS_VENDOR_SPECIFIC.
abbrev pub descriptor : ℕ → ℕ → ℕ → ℕ → List ℕ
descriptor desc_interface vendor_specific itfnum stridx =
    9 ∷ desc_interface ∷ u8 itfnum ∷ 0 ∷ 0 ∷ vendor_specific ∷ subclass ∷ protocol ∷ u8 stridx ∷ []

-- `pr_rpi_resetd_open`: the interface number that is kept, and the length returned; `drv_len` is the
-- size of a descriptor.
unfoldable pub driver_open : ℕ → ℕ → ℕ → Interface → ℕ → ℕ × ℕ
driver_open vendor_specific drv_len itf_num itf max_len =
    if (vendor_specific == itf.interface_class)
      && (subclass == itf.interface_sub_class)
      && (protocol == itf.interface_protocol)
    then (if leb drv_len max_len then (itf.interface_number, drv_len) else (itf_num, 0))
    else (itf_num, 0)

-- `pr_rpi_resetd_reset` and `pr_rpi_resetd_xfer_cb`
abbrev pub driver_reset : ℕ
driver_reset = 0

abbrev pub xfer_cb : Bool
xfer_cb = true

module _ {W : Type 0} where
  -- `pr_rpi_resetd_control_xfer_cb`; `setup` is CONTROL_STAGE_SETUP.
  unfoldable pub control_xfer_cb : (W → W) → (W → W) → ℕ → ℕ → ℕ → ℕ → ℕ → W → Bool × W
  control_xfer_cb reset_usb_boot watchdog_reboot setup itf_num stage index request w =
      if not (stage == setup)
      then (true, w)
      else (if index == itf_num
          then (let w1 = if request == request_bootsel then reset_usb_boot w else w in
              if request == request_flash then (true, watchdog_reboot w1) else (false, w1))
          else (false, w))

  -- `tiny_usb_runner` and `pr_tiny_usb_init`; the task is a handle.
  unfoldable pub tiny_usb_runner : (W → W) → (ℕ → W → W) → ℕ → W → W
  tiny_usb_runner tud_task exec runner w = exec runner (tud_task w)

  unfoldable pub init : (W → W) → (ℕ → W → W) → (ℕ → W → W) → ℕ → W → W
  init tusb_init task_init exec runner w = exec runner (task_init runner (tusb_init w))
