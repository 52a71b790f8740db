-- ===== src/PixelLed/Tests.antt =====
-- A strip on a PIO that takes a few words, and the properties of PixelLed's modules at it.
use picore.Base.{
  ℕ, ◌+◌, ◌-◌, ◌≤◌, ◌≡◌, ◌==◌, refl, arith, Bool, true, false, none, some, List, [], ◌∷◌, ◌++◌, ◌⊎◌,
  get_or,
}
use picore.PixelLed.{Strip, Sdk, push_loop, on_pixel_led_irq, on_pio_irq}
use picore.PixelLed.Words.{IsPio, frame, wire, ending, on_pixel_led_irq-frame}
use picore.PixelLed.Flags.{Pending, consistent}

-- The words given, how many more fit, and what is pending for the strip.
record Board : Type 0 where
  words : List ℕ
  room : ℕ
  pending : Pending

abbrev board : Sdk Board
board = record {
  pio_sm_is_tx_fifo_full = λ pio sm w. w.room == 0;
  pio_sm_put = λ pio sm v w. record w { words = w.words ++ (v ∷ []); room = w.room - 1 };
  pio_set_irq0_source_enabled = λ pio sm on w. record w { pending = record w.pending { irq = on } };
  pio_interrupt_clear = λ pio sm w. w;
  pr_task_exec = λ task w. record w { pending = record w.pending { refresh = true } };
  pr_task_exec_in_us = λ task us w. record w { pending = record w.pending { done = true } };
}

abbrev strip : Strip
strip = record {
  pio = 0;
  sm = 1;
  refresh_task = 5;
  done_task = 6;
  pixel_data = 1 ∷ 2 ∷ 3 ∷ [];
  pixel_count = 3;
  offset = 1;
  refreshing = true;
  dirty = false;
  inv = false;
}

abbrev at_work : Board
at_work = record {
  words = 256 ∷ [];
  room = 2;
  pending = record { refresh = false; done = false; irq = true };
}

board-IsPio : IsPio board (λ w. w.words) 0 1
board-IsPio = record {
  put = λ v w. refl;
  enabled = λ on w. refl;
  still = λ on w. refl;
  executed = λ task us w. refl;
}

on_pixel_led_irq-frame_example :
    (n : ℕ) × (done : Bool) × (w' : Board) × (on_pixel_led_irq board 5 strip at_work
      ≡ some (record strip { offset = 1 + n }, w'))
    × (w'.words
        ≡ (256 ∷ []) ++ (frame (λ i. wire false (get_or (1 ∷ 2 ∷ 3 ∷ []) i 0)) 1 n ++ ending done))
    × (1 + n ≤ 3)
    × ((done ≡ true) × (1 + n ≡ 3) ⊎ (done ≡ false) × ((w'.room == 0) ≡ true))
on_pixel_led_irq-frame_example =
    on_pixel_led_irq-frame board (λ w. w.words) 5 strip at_work board-IsPio (omega arith)
      (omega arith)

-- Setting a pixel during a transfer.
abbrev changed : Strip
changed = record strip { pixel_data = 1 ∷ 2 ∷ 9 ∷ []; dirty = true }

abbrev asked : Board
asked = record at_work { pending = record at_work.pending { refresh = true } }

-- The interrupt of another strip of the PIO serves this one too, though it is idle and its own is disabled: it is
-- given an ending and its end is scheduled, which is not consistent.
abbrev idle : Strip
idle = record strip { offset = 3; refreshing = false }

abbrev quiet : Board
quiet = record at_work { pending = record { refresh = false; done = false; irq = false } }

served_when_idle :
    on_pio_irq board 5 0 0 (none ∷ some idle ∷ []) quiet
    ≡ some (
      none ∷ some idle ∷ [],
      record {
        words = 256 ∷ 0 ∷ [];
        room = 1;
        pending = record { refresh = false; done = true; irq = false };
      },
    )
unfolding on_pio_irq on_pixel_led_irq push_loop
served_when_idle = refl

not_consistent :
    consistent false false false (record { refresh = false; done = true; irq = false }) ≡ false
not_consistent = refl
