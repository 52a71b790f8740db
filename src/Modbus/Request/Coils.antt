-- ===== src/Modbus/Request/Coils.antt =====
-- The coil reads of src/modbus/modbus.c against the values that the handlers return.
use picore.Base.{
  ℕ, zero, suc, ◌+◌, ◌*◌, ◌/◌, ◌%◌, ◌≤◌, ◌<◌, ◌≡◌, refl, sym, ap, ap₂, ◌∙◌, arith, Bool, true,
  false, inl, inr, Bool-cases, Option, none, some, List, [], ◌∷◌, ◌++◌, ltb, length, take, subst,
  get_or, set, blit, replicate, append_assoc, append-nil, take-blit_at, take-set_segment,
  get_or-segment, length-set, length-blit, length-append, length-take, bit_or, shl, u8, u16,
}
use picore.Modbus.{ModbusError, succeeds, Bus}
use picore.Modbus.Spec.{fetch, read, packed, packed-nil, packed-off, packed-on}
use picore.Modbus.Reads.{append, mark, coils_loop, coils_get_many}
use picore.Modbus.Request.Values.{written, Gives, appended, true_ne_false}

-- The buffer while `n` bytes of coils behind `start` hold `bits`.
record Holds (start : List ℕ) (n : ℕ) (bus : Bus) (bits : List Bool) : Type 0 where
  size : length bus.buffer ≡ 256
  from : bus.ptr ≡ length start
  fits : bus.ptr + n ≤ 254
  bytes : take (length start + n) bus.buffer ≡ start ++ packed n bits

length-replicate : (n : ℕ) → length (replicate {A = ℕ} n 0) ≡ n
length-replicate zero = refl
length-replicate (suc n) = ap suc (length-replicate n)

mark-Holds :
    (start : List ℕ) (n : ℕ) (bus : Bus) (bits : List Bool) (value : Bool)
    → Holds start n bus bits
    → length bits < n * 8
    → Holds start n (mark bus (length bits) value) (bits ++ value ∷ [])
mark-Holds start n bus bits false h lt = record {
  size = h.size;
  from = h.from;
  fits = h.fits;
  bytes = h.bytes ∙ ap (λ l. start ++ l) (sym (packed-off n bits));
}
mark-Holds start n bus bits true h lt =
    let i = length bits / 8 in
    let at : bus.ptr + i ≡ length start + i = omega (arith, h.from) in
    let here : get_or bus.buffer (bus.ptr + i) 0 ≡ get_or (packed n bits) i 0 =
      ap (λ k. get_or bus.buffer k 0) at
      ∙ get_or-segment bus.buffer start (packed n bits) n i h.bytes 0 (omega arith) in
    let v = u8 (bit_or (get_or bus.buffer (bus.ptr + i) 0) (shl 1 (length bits % 8))) in
    record {
      size = length-set bus.buffer (bus.ptr + i) v ∙ h.size;
      from = h.from;
      fits = h.fits;
      bytes =
          ap (λ k. take (length start + n) (set bus.buffer k v)) at
          ∙ take-set_segment bus.buffer start (packed n bits) n i h.bytes v
          ∙ ap (λ x. start ++ set (packed n bits) i (u8 (bit_or x (shl 1 (length bits % 8))))) here
          ∙ ap (λ l. start ++ l) (sym (packed-on n bits lt));
    }

-- The buffer at the start of the loop.
cleared-Holds :
    (bus : Bus) (n : ℕ)
    → length bus.buffer ≡ 256
    → bus.ptr ≡ 2
    → n ≤ 250
    → let bus1 = append bus n in
      Holds (written bus1) n (record bus1 { buffer = blit bus1.buffer bus1.ptr (replicate n 0) }) []
cleared-Holds bus n len at le =
    let bus1 = append bus n in
    let l1 : length bus1.buffer ≡ 256 = length-set bus.buffer bus.ptr (u8 n) ∙ len in
    let three : bus1.ptr ≡ 3 = omega (arith, at) in
    let start : length (written bus1) ≡ bus1.ptr =
      length-take bus1.ptr bus1.buffer ∙ omega (arith, l1, three) in
    let zeros : length (replicate n 0) ≡ n = length-replicate n in
    record {
      size = length-blit bus1.buffer bus1.ptr (replicate n 0) ∙ l1;
      from = sym start;
      fits = omega (arith, three);
      bytes =
          ap₂ (λ a b. take (a + b) (blit bus1.buffer bus1.ptr (replicate n 0))) start (sym zeros)
          ∙ take-blit_at bus1.buffer bus1.ptr (replicate n 0) (omega (arith, zeros, l1, three))
          ∙ ap (λ l. written bus1 ++ l) (sym (packed-nil n));
    }

module _ {W : Type 0} where
  record Fetched (start : List ℕ) (n : ℕ) (bits : List Bool) (x : ModbusError × Bus × W)
      (y : ModbusError × List Bool × W) : Type 0 where
    same : (x.0 ≡ y.0) × (x.2 ≡ y.2)
    values : succeeds y.0 ≡ true → Holds start n x.1 (bits ++ y.1)

  coils_loop-Fetched :
      (start : List ℕ) (bytes : ℕ) (getter : ℕ → W → ModbusError × Bool × W) (addr n : ℕ)
      (bits : List Bool) (bus : Bus) (w : W)
      → Holds start bytes bus bits
      → length bits + n ≤ bytes * 8
      → Fetched start bytes bits
          (coils_loop getter addr n (length bits) bus w)
          (fetch getter addr n (length bits) w)
  unfolding coils_loop
  coils_loop-Fetched start bytes getter addr zero bits bus w h le = record {
    same = (refl, refl);
    values = λ e. subst (Holds start bytes bus) (sym (append-nil bits)) h;
  }
  coils_loop-Fetched start bytes getter addr (suc n) bits bus w h le =
      let (err, value, w') = getter (u16 (addr + length bits)) w in
      let more : length (bits ++ value ∷ []) ≡ length bits + 1 = length-append bits (value ∷ []) in
      elim (Bool-cases (succeeds err)) [
        | inl ok ↦
            let rest =
              coils_loop-Fetched start bytes getter addr n (bits ++ value ∷ [])
                (mark bus (length bits) value) w'
                (mark-Holds start bytes bus bits value h (omega arith)) (omega (arith, more)) in
            let rest' : Fetched start bytes (bits ++ value ∷ [])
                (coils_loop getter addr n (length bits + 1) (mark bus (length bits) value) w')
                (fetch getter addr n (length bits + 1) w') =
              subst
                (λ k.
                  Fetched start bytes (bits ++ value ∷ [])
                    (coils_loop getter addr n k (mark bus (length bits) value) w')
                    (fetch getter addr n k w'))
                more rest in
            rw (ok, coils_loop)
              (record {
                same = rest'.same;
                values = λ e.
                    subst (Holds start bytes _) (append_assoc bits (value ∷ []) _) (rest'.values e);
              })
        | inr bad ↦
            rw (bad, coils_loop)
              (record { same = (refl, refl); values = λ e. absurd (true_ne_false (sym e ∙ bad)) })
      ]

  pub coils_get_many-Gives :
      (getter : Option (ℕ → W → ModbusError × Bool × W)) (addr count : ℕ) (bus : Bus) (w : W)
      → length bus.buffer ≡ 256
      → bus.ptr ≡ 2
      → Gives
          (written bus)
          (coils_get_many getter addr count bus w)
          (read ((count + 7) / 8) (packed ((count + 7) / 8)) getter addr count w)
  unfolding coils_get_many
  coils_get_many-Gives none addr count bus w len at =
      elim (Bool-cases (ltb 250 ((count + 7) / 8))) [
        | inl e ↦ rw e (refl, refl, refl)
        | inr e ↦ rw e (refl, refl, refl)
      ]
  coils_get_many-Gives (some get) addr count bus w len at =
      elim (Bool-cases (ltb 250 ((count + 7) / 8))) [
        | inl e ↦ rw e (refl, refl, refl)
        | inr e ↦
            let n = (count + 7) / 8 in
            let le : n ≤ 250 = ground (arith, e) in
            let bus1 = append bus n in
            let bus2 : Bus = record bus1 { buffer = blit bus1.buffer bus1.ptr (replicate n 0) } in
            let y = fetch get addr count 0 w in
            let x = coils_loop get addr count 0 bus2 w in
            let f =
              coils_loop-Fetched (written bus1) n get addr count [] bus2 w
                (cleared-Holds bus n len at le) (omega arith) in
            let world = f.same.1 in
            elim (Bool-cases (succeeds y.0)) [
              | inl ok ↦
                  let okx : succeeds x.0 ≡ true = ap succeeds f.same.0 ∙ ok in
                  let h = f.values ok in
                  let moved : u16 (x.1.ptr + n) ≡ length (written bus1) + n =
                    omega (arith, h.from, h.fits) in
                  let shown : take (u16 (x.1.ptr + n)) x.1.buffer
                      ≡ written bus ++ u8 n ∷ packed n y.1 =
                    ap (λ k. take k x.1.buffer) moved
                    ∙ h.bytes
                    ∙ ap (λ l. l ++ packed n y.1) (appended bus n len (omega (arith, at)))
                    ∙ append_assoc (written bus) (u8 n ∷ []) _ in
                  rw (e, ok, okx) (refl, shown, world)
              | inr bad ↦
                  let badx : succeeds x.0 ≡ false = ap succeeds f.same.0 ∙ bad in
                  rw (e, bad, badx) (f.same.0, bad, world)
            ]
      ]
