-- ===== src/Modbus/Request/Identity.antt =====
-- The device identification of src/modbus/modbus.c at the levels 1 and 2.
use picore.Base.{
  ℕ, zero, suc, ◌+◌, ◌≤◌, ◌<◌, ◌≡◌, ◌==◌, refl, sym, subst, ap, ap₂, ◌∙◌, arith, true, false, inl,
  inr, Option-cases, Option, none, some, List, ◌∷◌, ◌++◌, if◌then◌else◌, ltb, leb, length, take,
  get_or, set, blit, append_assoc, append-nil, length-set, length-blit, length-append, length-take,
  take-set_within, take-blit_at, get_or-take, sub32, u8, u16,
}
use native.Mathlib.Nat.{mod-eq_of_lt, add-zero}
use picore.Fifo.{Fifo}
use picore.Modbus.{Bus}
use picore.Modbus.DevId.{put, add_object, call_devid, devid_loop}
use picore.Modbus.Spec.{objects, listing}
use picore.Modbus.Request.Values.{written}

-- A list of objects under way, to be sent to the FIFO `t`: the bytes 5 to 7 are `s`, `x` and `c`.
pub record Listing (t : Fifo) (a f m l k s x c : ℕ) (rest : List ℕ) (bus : Bus) : Type 0 where
  pub shown : written bus ≡ a ∷ f ∷ m ∷ l ∷ k ∷ s ∷ x ∷ c ∷ rest
  pub size : length bus.buffer ≡ 256
  pub from : 8 ≤ bus.ptr
  pub fits : bus.ptr ≤ 254
  pub sends_to : bus.tx ≡ t

module _ (t : Fifo) (a f m l k s : ℕ) where
  -- The next object to ask for.
  pub next-Listing :
      (x c v : ℕ) (rest : List ℕ) (bus : Bus)
      → v < 256
      → Listing t a f m l k s x c rest bus
      → Listing t a f m l k s v c rest (put bus 6 v)
  next-Listing x c v rest bus lt h = record {
    shown =
        take-set_within bus.ptr bus.buffer 6 (u8 v)
        ∙ ap (λ b. set b 6 (u8 v)) h.shown
        ∙ ap (λ y. a ∷ f ∷ m ∷ l ∷ k ∷ s ∷ y ∷ c ∷ rest) (mod-eq_of_lt lt);
    size = length-set bus.buffer 6 (u8 v) ∙ h.size;
    from = h.from;
    fits = h.fits;
    sends_to = h.sends_to;
  }

  object-Listing :
      (x c i : ℕ) (text rest : List ℕ) (bus : Bus)
      → i < 256
      → length text ≤ 64
      → c < 255
      → bus.ptr + 2 + length text ≤ 254
      → Listing t a f m l k s x c rest bus
      → Listing t a f m l k s x (c + 1) (rest ++ i ∷ length text ∷ text) (add_object bus i text)
  object-Listing x c i text rest bus small short few room h =
      let b2 =
        blit (set (set bus.buffer bus.ptr (u8 i)) (bus.ptr + 1) (u8 (length text))) (bus.ptr + 2)
          text in
      let p' = bus.ptr + (length text + 2) in
      let at : u16 p' ≡ p' = omega arith in
      let two : bus.ptr + 2 ≡ bus.ptr + 1 + 1 = omega arith in
      let shown : take p' b2 ≡ a ∷ f ∷ m ∷ l ∷ k ∷ s ∷ x ∷ c ∷ (rest ++ i ∷ length text ∷ text) =
        ap
          (λ j.
            take p'
              (blit (set (set bus.buffer bus.ptr (u8 i)) (bus.ptr + 1) (u8 (length text))) j text))
          two
        ∙ ap (λ j. take j (blit bus.buffer bus.ptr (u8 i ∷ u8 (length text) ∷ text))) (omega arith)
        ∙ take-blit_at bus.buffer bus.ptr (u8 i ∷ u8 (length text) ∷ text) (omega (arith, h.size))
        ∙ ap₂ (λ y z. written bus ++ y ∷ z ∷ text) (mod-eq_of_lt small) (omega arith)
        ∙ ap (λ b. b ++ i ∷ length text ∷ text) h.shown in
      let count : get_or b2 7 0 ≡ c =
        sym (get_or-take p' b2 7 0 (omega (arith, h.from))) ∙ ap (λ b. get_or b 7 0) shown in
      let size : length b2 ≡ 256 =
        length-blit _ (bus.ptr + 2) text
        ∙ length-set _ (bus.ptr + 1) _
        ∙ length-set bus.buffer bus.ptr _
        ∙ h.size in
      record {
        shown =
            ap (λ j. take j (set b2 7 (u8 (get_or b2 7 0 + 1)))) at
            ∙ take-set_within p' b2 7 (u8 (get_or b2 7 0 + 1))
            ∙ ap₂ (λ b y. set b 7 (u8 (y + 1))) shown count
            ∙ ap (λ y. a ∷ f ∷ m ∷ l ∷ k ∷ s ∷ x ∷ y ∷ (rest ++ i ∷ length text ∷ text))
                (omega arith);
        size = length-set b2 7 _ ∙ size;
        from = omega (arith, h.from, at);
        fits = omega (arith, at);
        sends_to = h.sends_to;
      }

  pub Listing-cong :
      {x x' c c' : ℕ} {rest rest' : List ℕ} {bus : Bus}
      → x ≡ x'
      → c ≡ c'
      → rest ≡ rest'
      → Listing t a f m l k s x c rest bus
      → Listing t a f m l k s x' c' rest' bus
  Listing-cong {x} {x'} {c} {c'} {rest} {rest'} {bus} ex ec er h =
      subst (λ y. Listing t a f m l k s x' c' y bus) er
        (subst (λ y. Listing t a f m l k s x' y rest bus) ec
          (subst (λ y. Listing t a f m l k s y c rest bus) ex h))

  module _ {W : Type 0} (devid : Option (ℕ → W → Option (List ℕ) × W)) (last : ℕ)
      (level : last < 255) where
    pub record Listed (x c : ℕ) (rest : List ℕ) (n i : ℕ) (w : W) (result : Option (Bus × W))
        : Type 0 where
      pub after : Bus
      pub returns : result ≡ some (after, (objects devid n i w).1)
      pub list :
          Listing t a f m l k s
            (if n == 0 then x else i + n)
            (c + length (objects devid n i w).0)
            (rest ++ listing (objects devid n i w).0)
            after

    ended :
        (fuel i : ℕ) (bus : Bus) (w : W)
        → leb i last ≡ false
        → devid_loop devid last (suc fuel) i bus w ≡ some (bus, w)
    unfolding devid_loop
    ended fuel i bus w past = rw (past, devid_loop) refl

    module _ (fuel i : ℕ) (bus : Bus) (w : W) (within : leb i last ≡ true) where
      absent :
          (call_devid devid i w).0 ≡ none
          → devid_loop devid last (suc fuel) i bus w
            ≡ devid_loop devid last fuel (u8 (i + 1)) (put bus 6 (i + 1)) (call_devid devid i w).1
      unfolding devid_loop
      absent nothing = rw (within, nothing, devid_loop) refl

      present :
          (string : List ℕ)
          → (call_devid devid i w).0 ≡ some string
          → bus.ptr + 2 + length (take 64 string) ≤ 254
          → devid_loop devid last (suc fuel) i bus w
            ≡ devid_loop devid last fuel
                (u8 (i + 1))
                (add_object (put bus 6 (i + 1)) i (take 64 string))
                (call_devid devid i w).1
      unfolding devid_loop
      present string there room =
          let left : ltb (sub32 (sub32 256 4) bus.ptr) (length (take 64 string)) ≡ false =
            ground (arith, room) in
          let inside : ltb 256 (bus.ptr + 2 + length (take 64 string)) ≡ false =
            ground (arith, room) in
          rw (within, there, left, inside, devid_loop) refl

    pub devid_loop-Listed :
        (n fuel i x c : ℕ) (rest : List ℕ) (bus : Bus) (w : W)
        → i + n ≡ suc last
        → n < fuel
        → c + n < 256
        → bus.ptr + length (listing (objects devid n i w).0) ≤ 254
        → Listing t a f m l k s x c rest bus
        → Listed x c rest n i w (devid_loop devid last fuel i bus w)
    devid_loop-Listed n zero i x c rest bus w at lt few room h = absurd (omega arith)
    devid_loop-Listed zero (suc fuel) i x c rest bus w at lt few room h = record {
      after = bus;
      returns = ended fuel i bus w (ground (arith, at));
      list = rw (append-nil rest, add-zero) h;
    }
    devid_loop-Listed (suc n) (suc fuel) i x c rest bus w at lt few room h =
        let within : leb i last ≡ true = ground (arith, at) in
        let next : u8 (i + 1) ≡ i + 1 = omega (arith, at) in
        let w' = (call_devid devid i w).1 in
        let h1 = next-Listing x c (i + 1) rest bus (omega (arith, at)) h in
        let asked : (if n == 0 then i + 1 else i + 1 + n) ≡ (if suc n == 0 then x else i + suc n) =
          ground arith in
        elim (Option-cases (call_devid devid i w).0) [
          | inl nothing ↦
              let same : (objects devid (suc n) i w).0 ≡ (objects devid n (i + 1) w').0 =
                rw (nothing, objects) refl in
              let r =
                devid_loop-Listed n fuel (i + 1) (i + 1) c rest (put bus 6 (i + 1)) w'
                  (omega (arith, at)) (omega arith) (omega arith)
                  (omega (arith, room, ap (λ o. length (listing o)) same)) h1 in
              record {
                after = r.after;
                returns =
                    absent fuel i bus w within nothing
                    ∙ ap (λ j. devid_loop devid last fuel j (put bus 6 (i + 1)) w') next
                    ∙ r.returns;
                list =
                    Listing-cong asked (ap (λ o. c + length o) (sym same))
                      (ap (λ o. rest ++ listing o) (sym same)) r.list;
              }
          | inr (string, there) ↦
              let text = take 64 string in
              let more_objects = (objects devid n (i + 1) w').0 in
              let same : (objects devid (suc n) i w).0 ≡ (i, text) ∷ more_objects =
                rw (there, objects) refl in
              let count : length (listing (objects devid (suc n) i w).0)
                  ≡ 2 + length text + length (listing more_objects) =
                ap (λ o. length (listing o)) same
                ∙ omega (arith, length-append text (listing more_objects)) in
              let short : length text ≤ 64 = omega (arith, length-take 64 string) in
              let fits : bus.ptr + 2 + length text ≤ 254 = omega (arith, room, count) in
              let b1 = put bus 6 (i + 1) in
              let h2 =
                object-Listing (i + 1) c i text rest b1 (omega (arith, at)) short (omega arith) fits
                  h1 in
              let r =
                devid_loop-Listed n fuel (i + 1) (i + 1) (c + 1) (rest ++ i ∷ length text ∷ text)
                  (add_object b1 i text) w' (omega (arith, at)) (omega arith) (omega arith)
                  (omega (arith, room, count)) h2 in
              record {
                after = r.after;
                returns =
                    present fuel i bus w within string there fits
                    ∙ ap (λ j. devid_loop devid last fuel j (add_object b1 i text) w') next
                    ∙ r.returns;
                list =
                    Listing-cong asked (omega (arith, ap length same))
                      (append_assoc rest (i ∷ length text ∷ text) (listing more_objects)
                        ∙ ap (λ o. rest ++ listing o) (sym same))
                      r.list;
              }
        ]
