-- ===== src/SpiMaster/Returns.antt =====
-- The loops of src/spi_master/spi_master.c end: the one that sends zeros, and the one over chunks.
use picore.Base.{
  ℕ, zero, suc, ◌+◌, ◌-◌, ◌≤◌, ◌<◌, ◌==◌, ◌≡◌, refl, arith, Bool, true, false, inl, inr, Bool-cases,
  Option, none, some, List, [], ◌++◌, replicate, ltb, if◌then◌else◌, bit_and,
}
use picore.SpiMaster.{
  Sdk, Device, at_most, bitrev_chunk_size, no_cs, tx_chunk, zeros_loop, master_transfer, lsb_loop,
  exchange, device_transfer, select, configure, is_lsb_first,
}
use picore.SpiMaster.Bitrev.{bitrev_buf}

-- The call returns.
abbrev pub Returns : {A : Type 0} → Option A → Type 0
Returns {A = A} call = (r : A) × (call ≡ some r)

module _ {W : Type 0} (sdk : Sdk W) where
  zeros_loop-Returns :
      (fuel inst left : ℕ) (w : W) → left < fuel → Returns (zeros_loop sdk fuel inst left w)
  unfolding zeros_loop
  zeros_loop-Returns zero inst left w lt = absurd (omega arith)
  zeros_loop-Returns (suc fuel) inst left w lt = elim (Bool-cases (left == 0)) [
    | inl done ↦ rw (done, zeros_loop) (w, refl)
    | inr more ↦
        rw (more, zeros_loop)
          (zeros_loop-Returns fuel inst (left - at_most 16 left)
            (sdk.spi_write_blocking inst (replicate (at_most 16 left) 0) w) (ground (arith, more)))
  ]

  master_transfer-Returns :
      (inst mode bitrate : ℕ) (mosi : Option (List ℕ)) (into : Bool) (byte_count : ℕ) (w : W)
      → Returns (master_transfer sdk inst mode bitrate mosi into byte_count w)
  unfolding master_transfer
  master_transfer-Returns inst mode bitrate (some mosi) true byte_count w = (_, refl)
  master_transfer-Returns inst mode bitrate (some mosi) false byte_count w = (_, refl)
  master_transfer-Returns inst mode bitrate none true byte_count w = (_, refl)
  master_transfer-Returns inst mode bitrate none false byte_count w =
      let (w', e) =
        zeros_loop-Returns (suc byte_count) inst byte_count (configure sdk inst mode bitrate w)
          (omega arith) in
      rw (e, master_transfer) (_, refl)

  lsb_loop-Returns :
      (fuel : ℕ) (dev : Device) (mosi : Option (List ℕ)) (into : Bool) (byte_count offset : ℕ)
      (out : List ℕ) (w : W)
      → offset ≤ byte_count
      → byte_count < fuel + offset
      → Returns (lsb_loop sdk fuel dev mosi into byte_count offset out w)
  unfolding lsb_loop
  lsb_loop-Returns zero dev mosi into byte_count offset out w le lt = absurd (omega arith)
  lsb_loop-Returns (suc fuel) dev mosi into byte_count offset out w le lt =
      elim (Bool-cases (ltb offset byte_count)) [
        | inr done ↦ rw (done, lsb_loop) (_, refl)
        | inl more ↦
            let chunk = at_most bitrev_chunk_size (byte_count - offset) in
            let (r, e) =
              master_transfer-Returns dev.instance_no (dev.mode - 8) dev.bitrate
                (tx_chunk sdk mosi offset chunk) into chunk w in
            rw (more, lsb_loop, e)
              (lsb_loop-Returns fuel dev mosi into byte_count (offset + chunk)
                (out ++ bitrev_buf r.0) r.1 (ground (arith, more)) (ground (arith, more)))
      ]

  exchange-Returns :
      (dev : Device) (mosi : Option (List ℕ)) (into : Bool) (byte_count : ℕ) (w : W)
      → Returns (exchange sdk dev mosi into byte_count w)
  unfolding exchange
  exchange-Returns dev mosi into byte_count w = elim (Bool-cases (is_lsb_first dev.mode)) [
    | inl lsb ↦
        rw (lsb, exchange)
          (lsb_loop-Returns (suc byte_count) dev mosi into byte_count 0 [] w (omega arith)
            (omega arith))
    | inr msb ↦
        rw (msb, exchange)
          (master_transfer-Returns dev.instance_no dev.mode dev.bitrate mosi into byte_count w)
  ]

  -- Every transfer to a device returns, whatever its mode, the buffers given, the number of bytes and
  -- the flags: the loops over the chunks and over the zero bytes sent for a missing buffer end.
  pub device_transfer-Returns :
      (dev : Device) (mosi : Option (List ℕ)) (into : Bool) (byte_count flags : ℕ) (w : W)
      → Returns (device_transfer sdk dev mosi into byte_count flags w)
  unfolding device_transfer
  device_transfer-Returns dev mosi into byte_count flags w =
      let (r, e) =
        exchange-Returns dev mosi into byte_count
          (if bit_and flags no_cs == 0 then select sdk dev w else w) in
      rw (e, device_transfer) (_, refl)
