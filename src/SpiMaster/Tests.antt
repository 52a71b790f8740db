-- ===== src/SpiMaster/Tests.antt =====
-- Transfers over a bus that keeps a log, and the properties of SpiMaster's modules at them.
use picore.Base.{
  ℕ, zero, suc, get_or, ◌<◌, ◌%◌, ◌≡◌, refl, ap, Bool, not, true, false, none, some, List, [], ◌∷◌,
  ◌++◌, arith,
}
use picore.SpiMaster.{Sdk, Device, exchange, device_transfer}
use picore.SpiMaster.Bitrev.{bitrev}
use picore.SpiMaster.Reversed.{IsExchange, exchange-reversed}
use picore.SpiMaster.Returns.{Returns, device_transfer-Returns}

-- A bus that answers each byte by the one before it, the first one by 0; `sent` is all that was sent, `levels` the
-- levels of the chip select.
record Wire : Type 0 where
  last : ℕ
  rate : ℕ
  levels : List Bool

shifted : ℕ → List ℕ → List ℕ × ℕ
shifted last [] = ([], last)
shifted last (x ∷ xs) = let (ys, end) = shifted x xs in (last % 256 ∷ ys, end)

abbrev wire : Sdk Wire
wire = record {
  spi_init = λ i rate w. w;
  spi_set_format = λ i cpol cpha w. w;
  spi_set_baudrate = λ i rate w. record w { rate = rate };
  spi_write_read_blocking =
      λ i xs w. let (ys, end) = shifted w.last xs in (ys, record w { last = end });
  spi_write_blocking = λ i xs w. w;
  spi_read_blocking = λ i fill n w. ([], w);
  gpio_set_function_spi = λ pin w. w;
  gpio_set_function_sio = λ pin w. w;
  gpio_init = λ pin w. w;
  gpio_set_pulls = λ pin up down w. w;
  gpio_set_dir = λ pin out w. record w { levels = w.levels ++ (not out ∷ []) };
  gpio_set_slew_rate = λ pin fast w. w;
  gpio_put = λ pin level w. record w { levels = w.levels ++ (level ∷ []) };
}

abbrev radio : Device
radio = record { instance_no = 1; csn = 17; bitrate = 1000; mode = 12 }

shifted-append :
    (last : ℕ) (xs ys : List ℕ)
    → shifted last (xs ++ ys)
      ≡ (let (a, mid) = shifted last xs in let (b, end) = shifted mid ys in (a ++ b, end))
unfolding shifted
shifted-append last [] ys = refl
shifted-append last (x ∷ xs) ys = ap (λ r. (last % 256 ∷ r.0, r.1)) (shifted-append x xs ys)

shifted-byte : (xs : List ℕ) (last i : ℕ) → get_or (shifted last xs).0 i 0 < 256
unfolding shifted
shifted-byte [] last i = omega arith
shifted-byte (x ∷ xs) last zero = omega arith
shifted-byte (x ∷ xs) last (suc i) = shifted-byte xs x i

three_bytes : (i : ℕ) → get_or (1 ∷ 2 ∷ 3 ∷ []) i 0 < 256
three_bytes zero = omega arith
three_bytes (suc zero) = omega arith
three_bytes (suc (suc zero)) = omega arith
three_bytes (suc (suc (suc i))) = omega arith

wire-IsExchange : IsExchange wire radio
unfolding shifted
wire-IsExchange = record {
  byte = λ xs w i. shifted-byte xs w.last i;
  nothing = λ w. refl;
  append = λ xs ys w. ap (λ r. (r.0, record w { last = r.1 })) (shifted-append w.last xs ys);
  again = λ w. refl;
  kept = λ xs w e. ap (λ v. record (wire.spi_write_read_blocking 1 xs w).1 { rate = v.rate }) e;
}

abbrev at_rest : Wire
at_rest = record { last = 0; rate = 100; levels = [] }

exchange-reversed_example :
    exchange wire radio (some (1 ∷ 2 ∷ 3 ∷ [])) true 3 at_rest
    ≡ some (0 ∷ 1 ∷ 2 ∷ [], record at_rest { last = 192; rate = 1000 })
unfolding shifted bitrev
exchange-reversed_example =
    exchange-reversed wire radio wire-IsExchange (1 ∷ 2 ∷ 3 ∷ []) at_rest refl (omega arith)
      three_bytes

device_transfer-Returns_example : Returns (device_transfer wire radio none false 40 0 at_rest)
device_transfer-Returns_example = device_transfer-Returns wire radio none false 40 0 at_rest
