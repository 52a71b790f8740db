-- ===== src/SpiMaster/Reversed.antt =====
-- The transfers of src/spi_master/spi_master.c to a device that sends its lowest bit first.
use picore.Base.{
  ℕ, zero, suc, ◌+◌, ◌-◌, ◌*◌, ◌/◌, ◌%◌, ◌^◌, ◌≤◌, ◌<◌, ◌==◌, ◌≡◌, refl, sym, ap, ap₂, get_or, ◌∷◌,
  ◌∙◌, arith, true, ◌&&◌, inl, inr, Bool-cases, ==_iff, some, List, [], ◌++◌, map, append-nil,
  append_assoc, length, take, drop, ltb, all_below, all_below_lem, and_true, length-map,
  length-take, take_all, drop_all, drop-drop, take-append-drop,
}
use mathlib.Core.List.{map-append}
use picore.SpiMaster.{
  Sdk, Device, at_most, bitrev_chunk_size, configure, master_transfer, lsb_loop, exchange,
  is_lsb_first,
}
use picore.SpiMaster.Bitrev.{bitrev}

-- The lowest `width` bits of a number, in the other order.
abbrev pub reverse_bits : ℕ → ℕ → ℕ
reverse_bits zero x = 0
reverse_bits (suc width) x = x % 2 * 2 ^ width + reverse_bits width (x / 2)

table_reverses :
    all_below 256 (λ x. (bitrev x == reverse_bits 8 x) && (bitrev (bitrev x) == x)) ≡ true
unfolding bitrev all_below
table_reverses = refl

-- The table reverses the bits of every byte, so reversing twice gives the byte again.
bitrev-reverse_bits : (x : ℕ) → x < 256 → (bitrev x ≡ reverse_bits 8 x) × (bitrev (bitrev x) ≡ x)
bitrev-reverse_bits x lt =
    let at : ((bitrev x == reverse_bits 8 x) && (bitrev (bitrev x) == x)) ≡ true =
      all_below_lem 256 (λ y. (bitrev y == reverse_bits 8 y) && (bitrev (bitrev y) == y)) x
        table_reverses lt in
    let (p, q) = and_true (bitrev x == reverse_bits 8 x) (bitrev (bitrev x) == x) at in
    ((==_iff _ _).0 p, (==_iff _ _).0 q)

map-bitrev :
    (xs : List ℕ) → ((i : ℕ) → get_or xs i 0 < 256) → map bitrev xs ≡ map (reverse_bits 8) xs
map-bitrev [] bytes = refl
map-bitrev (x ∷ xs) bytes =
    ap₂ (λ y ys. y ∷ ys) (bitrev-reverse_bits x (bytes 0)).0 (map-bitrev xs (λ i. bytes (suc i)))

module _ {W : Type 0} (sdk : Sdk W) (dev : Device) where
  abbrev inst : ℕ
  inst = dev.instance_no

  abbrev wr : List ℕ → W → List ℕ × W
  wr bytes w = sdk.spi_write_read_blocking inst bytes w

  abbrev set_up : W → W
  set_up w = configure sdk inst (dev.mode - 8) dev.bitrate w

  -- What a blocking exchange does: one byte after the other, the settings of the bus left alone.
  pub record IsExchange : Type 0 where
    pub byte : (xs : List ℕ) (w : W) (i : ℕ) → get_or (wr xs w).0 i 0 < 256
    pub nothing : (w : W) → wr [] w ≡ ([], w)
    pub append :
        (xs ys : List ℕ) (w : W)
        → wr (xs ++ ys) w ≡ (let (a, w1) = wr xs w in let (b, w2) = wr ys w1 in (a ++ b, w2))
    pub again : (w : W) → set_up (set_up w) ≡ set_up w
    pub kept : (xs : List ℕ) (w : W) → set_up w ≡ w → set_up (wr xs w).1 ≡ (wr xs w).1

  module _ (law : IsExchange) (xs : List ℕ) where
    chunk_sent :
        (offset chunk : ℕ)
        → take chunk (map bitrev (take chunk (drop offset xs)))
          ≡ map bitrev (take chunk (drop offset xs))
    chunk_sent offset chunk = take_all chunk _ (
        omega (
          arith,
          length-map bitrev (take chunk (drop offset xs)),
          length-take chunk (drop offset xs),
        ))

    rest_split :
        (offset chunk : ℕ)
        → map bitrev (take chunk (drop offset xs)) ++ map bitrev (drop (offset + chunk) xs)
          ≡ map bitrev (drop offset xs)
    rest_split offset chunk =
        sym (map-append bitrev (take chunk (drop offset xs)) (drop (offset + chunk) xs))
        ∙ ap (map bitrev) (
            ap (λ l. take chunk (drop offset xs) ++ l) (sym (drop-drop offset chunk xs))
            ∙ take-append-drop chunk (drop offset xs))

    abbrev chunk_at : ℕ → ℕ
    chunk_at offset = at_most bitrev_chunk_size (length xs - offset)

    abbrev tx_at : ℕ → List ℕ
    tx_at offset = map bitrev (take (chunk_at offset) (drop offset xs))

    round :
        (fuel offset : ℕ) (out : List ℕ) (w : W)
        → ltb offset (length xs) ≡ true
        → let (rx, w') = wr (tx_at offset) (set_up w) in
          lsb_loop sdk (suc fuel) dev (some xs) true (length xs) offset out w
          ≡ lsb_loop sdk fuel dev
              (some xs)
              true
              (length xs)
              (offset + chunk_at offset)
              (out ++ map bitrev rx)
              w'
    unfolding lsb_loop master_transfer
    round fuel offset out w more = rw (more, lsb_loop, chunk_sent offset (chunk_at offset)) refl

    lsb_loop-exchange :
        (fuel offset : ℕ) (out : List ℕ) (w : W)
        → offset ≤ length xs
        → length xs < fuel + offset
        → set_up w ≡ w
        → let (rx, w') = wr (map bitrev (drop offset xs)) w in
          lsb_loop sdk fuel dev (some xs) true (length xs) offset out w
          ≡ some (out ++ map bitrev rx, w')
    unfolding lsb_loop master_transfer
    lsb_loop-exchange zero offset out w le lt e = absurd (omega arith)
    lsb_loop-exchange (suc fuel) offset out w le lt e = elim (Bool-cases (ltb offset (length xs))) [
      | inr done ↦
          let none_left : drop offset xs ≡ [] = drop_all offset xs (ground (arith, done)) in
          rw (done, lsb_loop, none_left, law.nothing w, append-nil) refl
      | inl more ↦
          let chunk = chunk_at offset in
          let tx = tx_at offset in
          let rest = map bitrev (drop (offset + chunk) xs) in
          let (a, w1) = wr tx w in
          let (b, w2) = wr rest w1 in
          let whole : wr (map bitrev (drop offset xs)) w ≡ (a ++ b, w2) =
            ap (λ l. wr l w) (sym (rest_split offset chunk)) ∙ law.append tx rest w in
          let ih =
            lsb_loop-exchange fuel (offset + chunk) (out ++ map bitrev a) w1 (ground (arith, more))
              (ground (arith, more)) (law.kept tx w e) in
          round fuel offset out w more
          ∙ rw e (
              ih
              ∙ ap (λ l. some (l, w2))
                  (append_assoc out (map bitrev a) (map bitrev b)
                    ∙ ap (λ l. out ++ l) (sym (map-append bitrev a b)))
              ∙ ap (λ r. some (out ++ map bitrev r.0, r.1)) (sym whole))
    ]

    exchange-bitrev :
        (w : W)
        → is_lsb_first dev.mode ≡ true
        → 0 < length xs
        → let (rx, w') = wr (map bitrev xs) (set_up w) in
          exchange sdk dev (some xs) true (length xs) w ≡ some (map bitrev rx, w')
    unfolding exchange
    exchange-bitrev w lsb pos =
        let more : ltb 0 (length xs) ≡ true = ground (arith, pos) in
        rw lsb (
          round (length xs) 0 [] w more
          ∙ ap
              (λ v.
                lsb_loop sdk (length xs) dev (some xs) true (length xs) (0 + chunk_at 0)
                  (map bitrev (wr (tx_at 0) v).0) (wr (tx_at 0) v).1)
              (sym (law.again w))
          ∙ sym (round (length xs) 0 [] (set_up w) more)
          ∙ lsb_loop-exchange (suc (length xs)) 0 [] (set_up w) (omega arith) (omega arith)
              (law.again w))

    -- To a device that sends its lowest bit first, a transfer of at least one byte in both directions
    -- returns, in however many chunks, what one exchange of the bytes with their eight bits in the other
    -- order returns, with the bits of these bytes in the other order again; for a bus that exchanges byte
    -- after byte, under settings that last, and for data of bytes.
    pub exchange-reversed :
        (w : W)
        → is_lsb_first dev.mode ≡ true
        → 0 < length xs
        → ((i : ℕ) → get_or xs i 0 < 256)
        → let (rx, w') = wr (map (reverse_bits 8) xs) (set_up w) in
          exchange sdk dev (some xs) true (length xs) w ≡ some (map (reverse_bits 8) rx, w')
    exchange-reversed w lsb pos bytes =
        let out : map bitrev xs ≡ map (reverse_bits 8) xs = map-bitrev xs bytes in
        exchange-bitrev w lsb pos
        ∙ ap (λ ys. let (rx, w') = wr ys (set_up w) in some (map bitrev rx, w')) out
        ∙ (let (rx, w') = wr (map (reverse_bits 8) xs) (set_up w) in
            ap (λ ys. some (ys, w'))
              (map-bitrev rx (law.byte (map (reverse_bits 8) xs) (set_up w))))
