-- ===== src/Modbus/Request/Transmit.antt =====
-- How the reply of src/modbus/modbus.c gets to the transmit FIFO: `modbus_tx_try` writes what fits,
-- and goes on when the FIFO's consumer has made room.
use picore.Base.{
  ℕ, zero, suc, ◌+◌, ◌-◌, ◌≤◌, ◌<◌, ◌≡◌, ◌⊎◌, ◌==◌, refl, sym, ap, ◌∙◌, arith, inl, inr, Bool-cases,
  min, ==_iff, Option, none, some, List, [], ◌∷◌, ◌++◌, if◌then◌else◌, length, take, drop,
  length-drop, length-take, take_all, take-drop-append, append_assoc, sub32, u16,
}
use picore.Fifo as Fifo
use picore.Fifo.{Fifo}
use picore.Fifo.Inv.{IsValid}
use picore.Fifo.Contents.{contents}
use picore.Fifo.Write.{write-Done, Done}
use picore.Modbus.{Bus}
use picore.Modbus.Request.{tx_try}

-- The reply `frame` on its way: what the FIFO's consumer has received and what the FIFO holds are
-- `before` and the part of the frame that has been sent.
pub data Progress (before frame received : List ℕ) (bus : Bus) : Type 0 where
  complete :
      bus.rsp_size ≡ 0
      → bus.ptr ≡ 0
      → received ++ contents bus.tx ≡ before ++ frame
      → Progress before frame received bus
  underway :
      bus.ptr < bus.rsp_size
      → take bus.rsp_size bus.buffer ≡ frame
      → received ++ contents bus.tx ≡ before ++ take bus.ptr frame
      → Progress before frame received bus

pub record Sending (before frame received : List ℕ) (bus : Bus) : Type 0 where
  pub valid : IsValid bus.tx 0 0
  pub size : length bus.buffer ≡ 256
  pub at_most : bus.rsp_size ≤ 256
  pub progress : Progress before frame received bus

take-take : (n m : ℕ) (xs : List ℕ) → n ≤ m → take n (take m xs) ≡ take n xs
take-take zero m xs le = refl
take-take (suc n) zero xs le = absurd (omega arith)
take-take (suc n) (suc m) [] le = refl
take-take (suc n) (suc m) (x ∷ xs) le = ap (λ l. x ∷ l) (take-take n m xs (omega arith))

module _ {W : Type 0} (exec : Option ℕ → W → W) where
  -- The rest of a reply is written as far as the FIFO has room, and the worker waits for more room.
  pub record Tried (before frame received : List ℕ) (bus : Bus) (w : W) : Type 0 where
    pub after : Bus
    pub world : W
    pub returns : tx_try exec bus w ≡ some (after, world)
    pub sending : Sending before frame received after
    pub ahead :
        (after.rsp_size ≡ 0)
        ⊎ (after.rsp_size ≡ bus.rsp_size)
          × (after.ptr ≡ bus.ptr + min (bus.rsp_size - bus.ptr) bus.tx.free)

  module _ (before frame received : List ℕ) (bus : Bus) (w : W) (valid : IsValid bus.tx 0 0)
      (size : length bus.buffer ≡ 256) (at_most : bus.rsp_size ≤ 256) (le : bus.ptr ≤ bus.rsp_size)
      (whole : take bus.rsp_size bus.buffer ≡ frame)
      (sent : received ++ contents bus.tx ≡ before ++ take bus.ptr frame) where
    left_lem : sub32 bus.rsp_size bus.ptr ≡ bus.rsp_size - bus.ptr
    left_lem = omega arith

    abbrev moved : ℕ
    moved = min (sub32 bus.rsp_size bus.ptr) bus.tx.free

    abbrev written : Option (ℕ × Fifo × W)
    written = Fifo.write exec bus.tx w (drop bus.ptr bus.buffer) (sub32 bus.rsp_size bus.ptr)

    done : Done exec bus.tx w (drop bus.ptr bus.buffer) 0 moved 0 written
    done =
        write-Done exec bus.tx w (drop bus.ptr bus.buffer) (sub32 bus.rsp_size bus.ptr) valid
          (omega arith) (omega (arith, length-drop bus.ptr bus.buffer))

    ptr_lem : u16 (bus.ptr + moved) ≡ bus.ptr + moved
    ptr_lem = omega arith

    sent_lem : received ++ contents done.after ≡ before ++ take (bus.ptr + moved) frame
    sent_lem =
        let more : bus.ptr + moved ≤ bus.rsp_size = omega arith in
        ap (λ l. received ++ l) done.appended
        ∙ sym (append_assoc received (contents bus.tx) (take moved (drop bus.ptr bus.buffer)))
        ∙ ap (λ l. l ++ take moved (drop bus.ptr bus.buffer)) sent
        ∙ append_assoc before (take bus.ptr frame) (take moved (drop bus.ptr bus.buffer))
        ∙ ap (λ l. before ++ (take bus.ptr l ++ take moved (drop bus.ptr bus.buffer))) (sym whole)
        ∙ ap (λ l. before ++ (l ++ take moved (drop bus.ptr bus.buffer)))
            (take-take bus.ptr bus.rsp_size bus.buffer le)
        ∙ ap (λ l. before ++ l) (take-drop-append bus.ptr moved bus.buffer)
        ∙ ap (λ l. before ++ l) (sym (take-take (bus.ptr + moved) bus.rsp_size bus.buffer more))
        ∙ ap (λ l. before ++ take (bus.ptr + moved) l) whole

    abbrev settled : ℕ → Fifo → W → Option (Bus × W)
    settled ptr tx w' =
        if ptr == bus.rsp_size
        then some (
          record bus { tx = tx; ptr = 0; rsp_size = 0 },
          if Fifo.is_empty bus.rx then w' else exec (some bus.worker) w',
        )
        else some (record bus { tx = tx; ptr = ptr }, w')

    abbrev resumed : Option (ℕ × Fifo × W) → Option (Bus × W)
    resumed result = elim result [
      | none ↦ none
      | some (tx_len, tx, w') ↦ settled (u16 (bus.ptr + tx_len)) tx w'
    ]

    tx_try-settled : tx_try exec bus w ≡ settled (bus.ptr + moved) done.after done.world
    unfolding tx_try
    tx_try-settled =
        let at : u16 (bus.ptr + (0 + moved)) ≡ bus.ptr + moved = omega arith in
        ap resumed done.returns ∙ ap (λ k. settled k done.after done.world) at

    pub tx_try-Tried : Tried before frame received bus w
    tx_try-Tried =
        let more : bus.ptr + moved ≤ bus.rsp_size = omega arith in
        elim (Bool-cases (bus.ptr + moved == bus.rsp_size)) [
          | inl all ↦
              let full : bus.ptr + moved ≡ length frame =
                (==_iff _ _).0 all
                ∙ sym (
                    ap length (sym whole)
                    ∙ length-take bus.rsp_size bus.buffer
                    ∙ omega (arith, size, at_most)) in
              record {
                after = record bus { tx = done.after; ptr = 0; rsp_size = 0 };
                world =
                    if Fifo.is_empty bus.rx then done.world else exec (some bus.worker) done.world;
                returns = tx_try-settled ∙ rw all refl;
                ahead = inl refl;
                sending = record {
                  valid = done.valid;
                  size = size;
                  at_most = omega arith;
                  progress = complete refl refl (
                      sent_lem
                      ∙ ap (λ l. before ++ l)
                          (take_all (bus.ptr + moved) frame (omega (arith, full))));
                };
              }
          | inr rest ↦ record {
            after = record bus { tx = done.after; ptr = bus.ptr + moved };
            world = done.world;
            returns = tx_try-settled ∙ rw rest refl;
            ahead = inr (refl, ap (λ k. bus.ptr + min k bus.tx.free) left_lem);
            sending = record {
              valid = done.valid;
              size = size;
              at_most = at_most;
              progress = underway (ground (arith, rest, more)) whole sent_lem;
            };
          }
        ]
