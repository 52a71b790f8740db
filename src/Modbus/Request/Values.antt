-- ===== src/Modbus/Request/Values.antt =====
-- The reads of src/modbus/modbus.c against the values that the handlers return.
use picore.Base.{
  ℕ, zero, suc, ◌+◌, ◌*◌, ◌≤◌, ◌≡◌, ◌≢◌, refl, sym, ap, ap₂, ◌∙◌, arith, true, false, inl, inr,
  Bool-cases, Option, none, some, List, [], ◌∷◌, ◌++◌, if◌then◌else◌, ltb, length, take, set,
  append_assoc, append-nil, take-blit_at, take-set, length-set, shr, u8, u16,
}
use picore.Endian.{be16_na_write}
use picore.Endian.RoundTrip.{be16-kept}
use picore.Modbus.{ModbusError, succeeds, Bus}
use picore.Modbus.Spec.{Reply, exception, body, words, fetch, read}
use picore.Modbus.Reads.{append, regs_loop, regs_get_many}

-- The bytes of a reply so far.
abbrev pub written : Bus → List ℕ
written bus = take bus.ptr bus.buffer

-- What a case of `bus_req_handle` leaves behind `start` is what the reply says.
module _ {W : Type 0} where
  abbrev pub Gives : List ℕ → ModbusError × Bus × W → Reply × W → Type 0
  Gives start (err, bus, w) (exception err', w') = (err ≡ err') × (succeeds err' ≡ false) × (w ≡ w')
  Gives start (err, bus, w) (body bytes, w') =
      (succeeds err ≡ true) × (written bus ≡ start ++ bytes) × (w ≡ w')

pub written-word :
    (bus : Bus) (v : ℕ)
    → bus.ptr + 2 ≤ length bus.buffer
    → take (bus.ptr + 2) (be16_na_write bus.buffer bus.ptr v) ≡ written bus ++ words (v ∷ [])
unfolding be16_na_write
written-word bus v le = take-blit_at bus.buffer bus.ptr (u8 (shr v 8) ∷ u8 v ∷ []) le

pub length-word :
    (bus : Bus) (v : ℕ) → length (be16_na_write bus.buffer bus.ptr v) ≡ length bus.buffer
length-word bus v = (be16-kept bus.buffer bus.ptr v).0

pub appended :
    (bus : Bus) (v : ℕ)
    → length bus.buffer ≡ 256
    → bus.ptr ≤ 250
    → written (append bus v) ≡ written bus ++ u8 v ∷ []
appended bus v len le =
    let one : u16 (bus.ptr + 1) ≡ suc bus.ptr = omega arith in
    ap (λ k. take k (set bus.buffer bus.ptr (u8 v))) one
    ∙ take-set bus.ptr bus.buffer (u8 v) (omega (arith, len))

pub true_ne_false : true ≢ false
true_ne_false e = cc

low_word : (v : ℕ) → words (u16 v ∷ []) ≡ words (v ∷ [])
low_word v =
    let high : u8 (shr (u16 v) 8) ≡ u8 (shr v 8) = omega arith in
    let low : u8 (u16 v) ≡ u8 v = omega arith in ap₂ (λ a b. a ∷ b ∷ []) high low

module _ {W : Type 0} where
  -- The registers fetched by a loop that starts with `bus`.
  record Fetched (start : List ℕ) (x : ModbusError × Bus × W) (y : ModbusError × List ℕ × W)
      : Type 0 where
    same : (x.0 ≡ y.0) × (x.2 ≡ y.2)
    values : succeeds y.0 ≡ true → written x.1 ≡ start ++ words y.1

  regs_loop-Fetched :
      (getter : ℕ → W → ModbusError × ℕ × W) (addr n off : ℕ) (bus : Bus) (w : W)
      → length bus.buffer ≡ 256
      → bus.ptr + n * 2 ≤ 254
      → Fetched (written bus) (regs_loop getter addr n off bus w) (fetch getter addr n off w)
  unfolding regs_loop
  regs_loop-Fetched getter addr zero off bus w len le = record {
    same = (refl, refl);
    values = λ e. sym (append-nil (written bus));
  }
  regs_loop-Fetched getter addr (suc n) off bus w len le =
      let (err, value, w') = getter (u16 (addr + off)) w in
      let bus1 : Bus = record bus {
        buffer = be16_na_write bus.buffer bus.ptr (u16 value);
        ptr = u16 (bus.ptr + 2);
      } in
      elim (Bool-cases (succeeds err)) [
        | inl ok ↦
            let l1 : length bus1.buffer ≡ 256 = length-word bus (u16 value) ∙ len in
            let p1 : bus1.ptr ≡ bus.ptr + 2 = omega arith in
            let rest = regs_loop-Fetched getter addr n (off + 1) bus1 w' l1 (omega (arith, p1)) in
            let first : written bus1 ≡ written bus ++ words (value ∷ []) =
              ap (λ k. take k bus1.buffer) p1
              ∙ written-word bus (u16 value) (omega (arith, len))
              ∙ ap (λ l. written bus ++ l) (low_word value) in
            rw (ok, regs_loop)
              (record {
                same = rest.same;
                values = λ e.
                    rest.values e
                    ∙ ap (λ l. l ++ words (fetch getter addr n (off + 1) w').1) first
                    ∙ append_assoc (written bus) (words (value ∷ [])) _;
              })
        | inr bad ↦
            rw (bad, regs_loop)
              (record { same = (refl, refl); values = λ e. absurd (true_ne_false (sym e ∙ bad)) })
      ]

  -- The end of a read: the values fetched behind the number of their bytes, or the error.
  pub end-Gives :
      {A : Type 0} (start : List ℕ) (bytes : ℕ) (encode : List A → List ℕ)
      (x : ModbusError × Bus × W) (y : ModbusError × List A × W)
      → x.0 ≡ y.0
      → x.2 ≡ y.2
      → (succeeds y.0 ≡ true → written x.1 ≡ start ++ bytes ∷ encode y.1)
      → Gives start x (if succeeds y.0 then body (bytes ∷ encode y.1) else exception y.0, y.2)
  end-Gives start bytes encode x y e w shown = elim (Bool-cases (succeeds y.0)) [
    | inl ok ↦ rw ok (ap succeeds e ∙ ok, shown ok, w)
    | inr bad ↦ rw bad (e, bad, w)
  ]

  pub regs_get_many-Gives :
      (getter : Option (ℕ → W → ModbusError × ℕ × W)) (addr count : ℕ) (bus : Bus) (w : W)
      → length bus.buffer ≡ 256
      → bus.ptr ≡ 2
      → Gives
          (written bus)
          (regs_get_many getter addr count bus w)
          (read (count * 2) words getter addr count w)
  unfolding regs_get_many
  regs_get_many-Gives none addr count bus w len at = elim (Bool-cases (ltb 250 (count * 2))) [
    | inl e ↦ rw e (refl, refl, refl)
    | inr e ↦ rw e (refl, refl, refl)
  ]
  regs_get_many-Gives (some get) addr count bus w len at = elim (Bool-cases (ltb 250 (count * 2))) [
    | inl e ↦ rw e (refl, refl, refl)
    | inr e ↦
        let bus1 = append bus (count * 2) in
        let l1 : length bus1.buffer ≡ 256 = length-set bus.buffer bus.ptr (u8 (count * 2)) ∙ len in
        let f = regs_loop-Fetched get addr count 0 bus1 w l1 (ground (arith, e, at)) in
        rw e (
          end-Gives (written bus) (u8 (count * 2)) words (regs_loop get addr count 0 bus1 w)
            (fetch get addr count 0 w) f.same.0 f.same.1
            λ ok.
              f.values ok
              ∙ ap (λ l. l ++ words (fetch get addr count 0 w).1)
                  (appended bus (count * 2) len (omega (arith, at)))
              ∙ append_assoc (written bus) (u8 (count * 2) ∷ []) _)
  ]
