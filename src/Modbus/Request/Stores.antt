-- ===== src/Modbus/Request/Stores.antt =====
-- The writes of src/modbus/modbus.c against what the handlers return.
use picore.Base.{
  ℕ, zero, suc, ◌+◌, ◌≡◌, ◌==◌, refl, subst, ap, ◌∙◌, arith, Bool, true, false, not, inl, inr,
  Bool-cases, Option, none, some, [], ◌∷◌, ◌++◌, if◌then◌else◌, length, take, get_or, append_assoc,
  u16,
}
use picore.Endian.{be16_na_read, be16_na_write}
use picore.Modbus.{ModbusError, succeeds, Bus}
use picore.Modbus.Spec.{words, store_one, store, confirm, tabulate, write_many}
use picore.Modbus.Writes.{
  echo, call_set, set_loop, write_single_register, write_single_coil, write_multiple,
}
use picore.Modbus.Request.Values.{written, Gives, written-word, length-word}

written-echo :
    (bus : Bus) (a b : ℕ)
    → length bus.buffer ≡ 256
    → bus.ptr ≡ 2
    → written (echo bus a b) ≡ written bus ++ words (a ∷ b ∷ [])
written-echo bus a b len at =
    let bus1 : Bus = record bus {
      buffer = be16_na_write bus.buffer bus.ptr a;
      ptr = bus.ptr + 2;
    } in
    let l1 : length bus1.buffer ≡ 256 = length-word bus a ∙ len in
    let four : u16 (bus.ptr + 4) ≡ bus.ptr + 2 + 2 = omega (arith, at) in
    ap (λ k. take k (echo bus a b).buffer) four
    ∙ written-word bus1 b (omega (arith, l1, at))
    ∙ ap (λ l. l ++ words (b ∷ [])) (written-word bus a (omega (arith, len, at)))
    ∙ append_assoc (written bus) (words (a ∷ [])) (words (b ∷ []))

module _ {W : Type 0} where
  call_set-store_one :
      {A : Type 0} (set : Option (ℕ → A → W → ModbusError × W)) (addr : ℕ) (v : A) (w : W)
      → call_set set addr v w ≡ store_one set addr v w
  call_set-store_one none addr v w = refl
  call_set-store_one (some set) addr v w = refl

  set_loop-store :
      {A : Type 0} (set : Option (ℕ → A → W → ModbusError × W)) (value : ℕ → A) (addr n off : ℕ)
      (w : W)
      → set_loop set value addr n off w ≡ store set addr off (tabulate value n off) w
  unfolding set_loop
  set_loop-store set value addr zero off w = refl
  set_loop-store none value addr (suc n) off w = refl
  set_loop-store (some set) value addr (suc n) off w =
      let (err, w') = set (u16 (addr + off)) (value off) w in
      elim (Bool-cases (succeeds err)) [
        | inl ok ↦ rw (ok, set_loop) (set_loop-store (some set) value addr n (off + 1) w')
        | inr bad ↦ rw (bad, set_loop) refl
      ]

  confirmed :
      (bus : Bus) (a b : ℕ) {x y : ModbusError × W}
      → length bus.buffer ≡ 256
      → bus.ptr ≡ 2
      → x ≡ y
      → Gives (written bus) (x.0, if succeeds x.0 then echo bus a b else bus, x.1) (confirm a b y)
  confirmed bus a b {x} {y} len at e =
      subst
        (λ z.
          Gives (written bus) (x.0, if succeeds x.0 then echo bus a b else bus, x.1)
            (confirm a b z))
        e
        (elim (Bool-cases (succeeds x.0)) [
          | inl ok ↦ rw ok (ok, written-echo bus a b len at, refl)
          | inr bad ↦ rw bad (refl, bad, refl)
        ])

  module _ (bus : Bus) (w : W) (len : length bus.buffer ≡ 256) (at : bus.ptr ≡ 2) where
    pub write_single_register-Gives :
        (set : Option (ℕ → ℕ → W → ModbusError × W))
        → let address = be16_na_read bus.buffer 2 in
          let value = be16_na_read bus.buffer 4 in
          Gives
            (written bus)
            (write_single_register set bus w)
            (confirm address value (store_one set address value w))
    unfolding write_single_register
    write_single_register-Gives set = confirmed bus _ _ len at (call_set-store_one set _ _ w)

    pub write_single_coil-Gives :
        (set : Option (ℕ → Bool → W → ModbusError × W))
        → let address = be16_na_read bus.buffer 2 in
          let on = not (be16_na_read bus.buffer 4 == 0) in
          Gives
            (written bus)
            (write_single_coil set bus w)
            (confirm address (if on then 0xff00 else 0) (store_one set address on w))
    unfolding write_single_coil
    write_single_coil-Gives set = confirmed bus _ _ len at (call_set-store_one set _ _ w)

    pub write_multiple-Gives :
        {A : Type 0} (set : Option (ℕ → A → W → ModbusError × W)) (value : ℕ → A) (counted : Bool)
        (size : ℕ)
        → Gives
            (written bus)
            (write_multiple set value counted bus size w)
            (write_many set counted bus.buffer value size w)
    unfolding write_multiple
    write_multiple-Gives set value false size = (refl, refl, refl)
    write_multiple-Gives set value true size =
        elim (Bool-cases (get_or bus.buffer 6 0 + 9 == size)) [
          | inl e ↦ rw e (
              confirmed bus _ _ len at (
                set_loop-store set value (be16_na_read bus.buffer 2) (be16_na_read bus.buffer 4) 0
                  w))
          | inr e ↦ rw e (refl, refl, refl)
        ]
