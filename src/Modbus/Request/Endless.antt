-- ===== src/Modbus/Request/Endless.antt =====
-- The device identification of src/modbus/modbus.c at its last level, where the last object is 255
-- and the loop counts in a byte.
use picore.Base.{
  ℕ, zero, suc, ◌+◌, ◌≤◌, ◌==◌, ◌∙◌, set, get_or-set_ne, ◌<◌, ◌≡◌, refl, arith, true, none, List,
  leb, get_or, u8,
}
use picore.Modbus.{Bus, Handler}
use picore.Modbus.DevId.{put, devid_loop, device_identification, devid_header}
use picore.Modbus.Reads.{append}
use picore.Modbus.Request.{answer, dispatch, read_device_identification}

kept : (buf : List ℕ) (x y i : ℕ) → 2 ≤ i → get_or (set (set buf 0 x) 1 y) i 0 ≡ get_or buf i 0
kept buf x y i lo =
    get_or-set_ne (set buf 0 x) {i = 1} {j = i} y 0 (λ e. omega arith)
    ∙ get_or-set_ne buf {i = 0} {j = i} x 0 (λ e. omega arith)

module _ {W : Type 0} where
  devid_loop_endless :
      (fuel i : ℕ) (bus : Bus) (w : W) → i < 256 → devid_loop none 255 fuel i bus w ≡ none
  unfolding devid_loop
  devid_loop_endless zero i bus w lt = refl
  devid_loop_endless (suc fuel) i bus w lt =
      let le : leb i 255 ≡ true = ground (arith, lt) in
      rw (le, devid_loop) (devid_loop_endless fuel (u8 (i + 1)) (put bus 6 (i + 1)) w (omega arith))

  -- Where the server has no `devid` handler, a request for its device identification of level 3,
  -- from any object on, is never answered: after no number of rounds does the loop over the objects
  -- end.
  pub answer_endless :
      (handler : Handler W) (fuel : ℕ) (bus : Bus) (size : ℕ) (w : W)
      → handler.devid ≡ none
      → get_or bus.buffer 0 0 ≡ bus.addr
      → get_or bus.buffer 1 0 ≡ read_device_identification
      → get_or bus.buffer 2 0 ≡ 0x0e
      → get_or bus.buffer 3 0 ≡ 3
      → get_or bus.buffer 4 0 < 256
      → answer handler fuel bus size w ≡ none
  unfolding answer dispatch device_identification
  answer_endless handler fuel bus size w no_devid mine func mei level object =
      let head =
        append (append (record bus { ptr = 0; rsp_size = 0 }) bus.addr) (get_or bus.buffer 1 0) in
      let same = kept bus.buffer (u8 bus.addr) (u8 (get_or bus.buffer 1 0)) in
      let at : (get_or bus.buffer 0 0 == bus.addr) ≡ true = ground (arith, mine) in
      let fn : (get_or bus.buffer 1 0 == read_device_identification) ≡ true =
        ground (arith, func) in
      let e2 = same 2 (omega arith) ∙ mei in
      let e3 = same 3 (omega arith) ∙ level in
      let loop =
        devid_loop_endless fuel (get_or head.buffer 4 0) (devid_header head) w
          (omega (arith, same 4 (omega arith))) in
      rw (at, fn, e2, e3, no_devid, loop) refl
