-- ===== src/Modbus/Worker/Gather.antt =====
-- The read of a turn of the worker of src/modbus/modbus.c: all that has arrived joins the buffer.
use picore.Base.{
  inl, inr, ℕ, suc, ◌+◌, ◌-◌, ◌<◌, ◌≤◌, ◌≡◌, ◌==◌, refl, sym, ap, ◌∙◌, arith, true, ◌∷◌, Option,
  none, some, List, [], ◌++◌, if◌then◌else◌, length, take, take-blit_at, blit, length-blit,
  length-take, append-nil, sub32, u16,
}
use picore.Fifo.{Fifo}
use picore.Fifo.Inv.{IsValid}
use picore.Fifo.Contents.{contents, length-contents}
use picore.Fifo.Read.{read-Copied}
use picore.Modbus.{Bus, Handler}
use picore.Modbus.Request.{tx_try}
use picore.Modbus.Request.Values.{written}
use picore.Modbus.Worker.{frame_try, rx_try, on_work}

length-zero : (xs : List ℕ) → length xs ≡ 0 → xs ≡ []
length-zero [] e = refl
length-zero (x ∷ xs) e = absurd (omega arith)

module _ {W : Type 0} (exec : Option ℕ → W → W) (exec_in_ms : ℕ → ℕ → W → W) (handler : Handler W)
    (fuel : ℕ) where
  module _ (outer : ℕ → ℕ) (more : ℕ) (bus : Bus) (w : W) (valid : IsValid bus.rx 0 0)
      (size : length bus.buffer ≡ 256) (idle : bus.rsp_size ≡ 0) (once : outer 0 ≡ 0)
      (in_piece : bus.rx.used ≤ bus.rx.size - bus.rx.rptr) (room : bus.ptr + bus.rx.used ≤ 256)
      (some_bytes : 0 < bus.rx.used) where
    -- The bus once all that has arrived is in its buffer.
    pub record Gathered : Type 0 where
      pub after : Bus
      pub world : W
      pub turn :
          on_work exec exec_in_ms handler fuel outer (suc more) bus w
          ≡ frame_try exec exec_in_ms handler fuel after world
      pub arrived : written after ≡ written bus ++ contents bus.rx
      pub full : after.ptr ≡ length (written after)
      pub from_rx : world ≡ exec bus.rx.producer w
      pub fields : (length after.buffer ≡ 256) × (after.tx ≡ bus.tx) × (after.addr ≡ bus.addr)

    abbrev read_in : Option (List ℕ × Fifo × W) → Option (Bus × W)
    read_in result = elim result [
      | none ↦ none
      | some (bytes, rx, w') ↦
          frame_try exec exec_in_ms handler fuel
            (record bus {
              rx = rx;
              buffer = blit bus.buffer bus.ptr bytes;
              ptr = u16 (bus.ptr + length bytes);
            })
            w'
    ]

    pub gather : Gathered
    unfolding on_work rx_try
    gather =
        let left : sub32 256 bus.ptr ≡ 256 - bus.ptr = omega arith in
        let (bytes, rx, w', e, c) =
          read-Copied exec outer more bus.rx w (sub32 256 bus.ptr) valid (omega arith) (omega arith)
            once in
        let all : length bytes ≡ bus.rx.used = omega (arith, c.count, in_piece, room) in
        let emptied : contents bus.rx ≡ bytes =
          c.split
          ∙ ap (λ l. bytes ++ l)
              (length-zero (contents rx) (omega (arith, length-contents rx, c.counted, all)))
          ∙ append-nil bytes in
        let at : u16 (bus.ptr + length bytes) ≡ bus.ptr + length bytes = omega (arith, all, room) in
        let shown : take (u16 (bus.ptr + length bytes)) (blit bus.buffer bus.ptr bytes)
            ≡ written bus ++ contents bus.rx =
          ap (λ k. take k (blit bus.buffer bus.ptr bytes)) at
          ∙ take-blit_at bus.buffer bus.ptr bytes (omega (arith, size, all, room))
          ∙ ap (λ l. written bus ++ l) (sym emptied) in
        let free_worker : (bus.rsp_size == 0) ≡ true = ground (arith, idle) in
        record {
          after = record bus {
            rx = rx;
            buffer = blit bus.buffer bus.ptr bytes;
            ptr = u16 (bus.ptr + length bytes);
          };
          world = w';
          turn =
              ap
                (λ b.
                  if b
                  then rx_try exec exec_in_ms handler fuel outer (suc more) bus w
                  else tx_try exec bus w)
                free_worker
              ∙ ap read_in e;
          arrived = shown;
          full = sym (
              length-take (u16 (bus.ptr + length bytes)) (blit bus.buffer bus.ptr bytes)
              ∙ omega (arith, length-blit bus.buffer bus.ptr bytes, size, at, all, room));
          from_rx = elim c.woken [
            | inl (nothing, same) ↦ absurd (omega (arith, nothing, all, some_bytes))
            | inr (more, woken) ↦ woken
          ];
          fields = (length-blit bus.buffer bus.ptr bytes ∙ size, refl, refl);
        }
