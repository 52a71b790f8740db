-- ===== src/Modbus/Request/Identified.antt =====
-- The reply of src/modbus/modbus.c to a device identification of the levels 1 and 2, byte for byte.
use picore.Base.{
  ℕ, zero, suc, ◌+◌, ◌-◌, ◌≤◌, ◌<◌, ◌≡◌, ◌==◌, refl, sym, ap, ap₂, ◌∙◌, arith, Bool, true, Option,
  none, some, List, [], ◌∷◌, if◌then◌else◌, leb, length, take, get_or, set, slice, length-set,
  take-set_within, get_or-take,
}
use picore.Fifo.{Fifo}
use picore.Modbus.{Bus, Handler, ModbusError, success}
use picore.Modbus.DevId.{put, last_object_id, devid_header, more, device_identification}
use picore.Modbus.Spec.{Reply, body, payload, sealed, objects, listing}
use picore.Modbus.Request.{answer, dispatch, read_device_identification}
use picore.Modbus.Request.Reply.{IsReply}
use picore.Modbus.Request.Sent.{finish, finish-Sends, headed-started, started}
use picore.Modbus.Request.Identity.{Listing, next-Listing, Listing-cong, devid_loop-Listed}

slice_tail : (x : ℕ) (xs : List ℕ) (i n : ℕ) → slice (x ∷ xs) (suc i) n ≡ slice xs i n
slice_tail x xs i zero = refl
slice_tail x xs i (suc n) =
    let next : suc i + 1 ≡ suc (i + 1) = omega arith in
    ap (λ l. get_or xs i 0 ∷ l) (ap (λ j. slice (x ∷ xs) j n) next ∙ slice_tail x xs (i + 1) n)

take-slice : (n : ℕ) (xs : List ℕ) → n ≤ length xs → take n xs ≡ slice xs 0 n
take-slice zero xs le = refl
take-slice (suc n) [] le = absurd (omega arith)
take-slice (suc n) (x ∷ xs) le =
    ap (λ l. x ∷ l) (take-slice n xs (omega arith) ∙ sym (slice_tail x xs 0 n))

module _ (t : Fifo) (a f m l : ℕ) where
  header-Listing :
      (bus : Bus)
      → length bus.buffer ≡ 256
      → get_or bus.buffer 0 0 ≡ a
      → get_or bus.buffer 1 0 ≡ f
      → get_or bus.buffer 2 0 ≡ m
      → get_or bus.buffer 3 0 ≡ l
      → bus.tx ≡ t
      → Listing t a f m l 0x83 0 0 0 [] (devid_header bus)
  header-Listing bus len e0 e1 e2 e3 tx =
      let b4 = set bus.buffer 4 0x83 in
      let b5 = set b4 5 0 in
      let b6 = set b5 6 0 in
      record {
        shown =
            take-set_within 8 b6 7 0
            ∙ ap (λ b. set b 7 0) (take-set_within 8 b5 6 0)
            ∙ ap (λ b. set (set b 6 0) 7 0) (take-set_within 8 b4 5 0)
            ∙ ap (λ b. set (set (set b 5 0) 6 0) 7 0) (take-set_within 8 bus.buffer 4 0x83)
            ∙ ap (λ b. set (set (set (set b 4 0x83) 5 0) 6 0) 7 0)
                (take-slice 8 bus.buffer (omega (arith, len)))
            ∙ ap₂
                (λ x y.
                  x ∷ y ∷ get_or bus.buffer 2 0 ∷ get_or bus.buffer 3 0 ∷ 0x83 ∷ 0 ∷ 0 ∷ 0 ∷ [])
                e0 e1
            ∙ ap₂ (λ x y. a ∷ f ∷ x ∷ y ∷ 0x83 ∷ 0 ∷ 0 ∷ 0 ∷ []) e2 e3;
        size =
            length-set b6 7 0
            ∙ length-set b5 6 0
            ∙ length-set b4 5 0
            ∙ length-set bus.buffer 4 0x83
            ∙ len;
        from = omega arith;
        fits = omega arith;
        sends_to = tx;
      }

  -- The end of a list that is complete.
  more-Listing :
      (last x c : ℕ) (rest : List ℕ) (bus : Bus)
      → last ≤ x
      → Listing t a f m l 0x83 0 x c rest bus
      → Listing t a f m l 0x83 0 0 c rest (more last bus)
  more-Listing last x c rest bus le h =
      let at : get_or bus.buffer 6 0 ≡ x =
        sym (get_or-take bus.ptr bus.buffer 6 0 (omega (arith, h.from)))
        ∙ ap (λ b. get_or b 6 0) h.shown in
      let all : leb last (get_or bus.buffer 6 0) ≡ true = ground (arith, at, le) in
      let flag : Listing t a f m l 0x83 0 x c rest (put bus 5 0) = record {
        shown = take-set_within bus.ptr bus.buffer 5 0 ∙ ap (λ b. set b 5 0) h.shown;
        size = length-set bus.buffer 5 0 ∙ h.size;
        from = h.from;
        fits = h.fits;
        sends_to = h.sends_to;
      } in
      rw all (next-Listing t a f m l 0x83 0 x c 0 rest (put bus 5 0) (omega arith) flag)

  Listing-IsReply :
      {s x c : ℕ} {rest : List ℕ} (bus : Bus)
      → Listing t a f m l 0x83 s x c rest bus
      → IsReply t a f bus
  Listing-IsReply bus h = record {
    size = h.size;
    first =
        sym (get_or-take bus.ptr bus.buffer 0 0 (omega (arith, h.from)))
        ∙ ap (λ b. get_or b 0 0) h.shown;
    second =
        sym (get_or-take bus.ptr bus.buffer 1 0 (omega (arith, h.from)))
        ∙ ap (λ b. get_or b 1 0) h.shown;
    from = omega (arith, h.from);
    fits = h.fits;
    sends_to = h.sends_to;
  }

module _ {W : Type 0} (handler : Handler W) (fuel : ℕ) (bus : Bus) (size last : ℕ) (w : W) where
  abbrev level : ℕ
  level = get_or bus.buffer 3 0

  abbrev object : ℕ
  object = get_or bus.buffer 4 0

  -- The objects from the one asked for to the last of the level, and what the handler has done.
  abbrev listed : List (ℕ × List ℕ) × W
  listed = objects handler.devid (suc last - object) object w

  abbrev identity : Reply
  identity = body (0x0e ∷ level ∷ 0x83 ∷ 0 ∷ 0 ∷ length listed.0 ∷ listing listed.0)

  module _ (len : length bus.buffer ≡ 256) (mei : get_or bus.buffer 2 0 ≡ 0x0e)
      (here : get_or bus.buffer 0 0 ≡ bus.addr)
      (func : get_or bus.buffer 1 0 ≡ read_device_identification)
      (known : last_object_id level ≡ some last) (bounded : last < 255) (within : object ≤ last)
      (room : 8 + length (listing listed.0) ≤ 254) (enough : suc last - object < fuel) where
    abbrev begun : Bus
    begun = started handler fuel bus size w

    record Identified : Type 0 where
      after : Bus
      returns : device_identification handler.devid fuel begun w ≡ some (success, after, listed.1)
      list :
          Listing bus.tx bus.addr read_device_identification 0x0e level 0x83 0 0
            (length listed.0)
            (listing listed.0)
            after

    device_identification-Identified : Identified
    unfolding device_identification
    device_identification-Identified =
        let h =
          header-Listing bus.tx bus.addr read_device_identification 0x0e level begun len here func
            mei refl refl in
        let r =
          devid_loop-Listed bus.tx bus.addr read_device_identification 0x0e level 0x83 0
            handler.devid last bounded (suc last - object) fuel object 0 0 [] (devid_header begun) w
            (omega arith) enough (omega arith) room h in
        let asked : last ≤ (if suc last - object == 0 then 0 else object + (suc last - object)) =
          ground arith in
        record {
          after = more last r.after;
          returns = rw (mei, known, r.returns) refl;
          list =
              more-Listing bus.tx bus.addr read_device_identification 0x0e level last _
                (length listed.0) (listing listed.0) r.after asked
                (Listing-cong bus.tx bus.addr read_device_identification 0x0e level 0x83 0 refl
                  (omega arith) refl r.list);
        }

    abbrev served : Option (ModbusError × Bus × W) → Option (Bool × Bus × W)
    served result = elim result [ none ↦ none | some (err, bus', w') ↦ finish (err, bus', w') ]

    -- In a buffer of 256 bytes, a device identification for this address, of a level whose last
    -- object is below 255, from an object of the level on, and with more fuel than there are objects
    -- from there: if the list of the objects that exist fits in 254 bytes with its header, it is
    -- answered by all of them, at most 64 bytes of each, marked as complete, with their number, and
    -- followed by the checksum.
    pub answer-identity :
        bus.addr < 256
        → (bus' : Bus) × (answer handler fuel bus size w ≡ some (true, bus', listed.1))
          × (take bus'.rsp_size bus'.buffer
              ≡ sealed (payload bus.addr read_device_identification identity))
    unfolding answer dispatch
    answer-identity small =
        let d = device_identification-Identified in
        let at : (get_or bus.buffer 0 0 == bus.addr) ≡ true = ground (arith, here) in
        let fn : (get_or bus.buffer 1 0 == read_device_identification) ≡ true =
          ground (arith, func) in
        let s =
          finish-Sends bus.tx bus.addr read_device_identification (success, d.after, listed.1)
            (identity, listed.1) (refl, d.list.shown, refl)
            (Listing-IsReply bus.tx bus.addr read_device_identification 0x0e level d.after
              d.list) in
        (
          s.after,
          rw (at, fn)
              (ap (λ b. served (device_identification handler.devid fuel b w))
                  (headed-started handler fuel bus size w small (omega (arith, func)) here)
                ∙ ap served d.returns
                ∙ s.returns),
          s.frame,
        )
