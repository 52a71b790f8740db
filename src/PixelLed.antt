-- ===== src/PixelLed.antt =====
-- src/pixel_led/pixel_led.c: strips of LEDs that a PIO state machine is fed by its interrupt, and the tasks that
-- start and end a transfer. The SDK's functions and `pr_task_exec` act on a state `W`.
pub mod Words
pub mod Flags
mod Tests
use picore.Base.{
  ℕ, zero, suc, ◌+◌, ◌-◌, ◌*◌, ◌%◌, ◌^◌, ◌==◌, Bool, true, false, Option, none, some, List, [], ◌∷◌,
  if◌then◌else◌, ltb, length, get_or, set as list_set, replicate, shl, u32,
}

-- `struct pr_pixel_led_strip`, less the queue of its tasks; `pio` is the number of the PIO.
pub record Strip : Type 0 where
  pub pio : ℕ
  pub sm : ℕ
  pub refresh_task : ℕ
  pub done_task : ℕ
  pub pixel_data : List ℕ
  pub pixel_count : ℕ
  pub offset : ℕ
  pub refreshing : Bool
  pub dirty : Bool
  pub inv : Bool

-- What the driver uses of `hardware/pio.h` (of a PIO and its state machine) and of `task.h` (of a task).
pub record Sdk (W : Type 0) : Type 0 where
  pub pio_sm_is_tx_fifo_full : ℕ → ℕ → W → Bool
  pub pio_sm_put : ℕ → ℕ → ℕ → W → W
  pub pio_set_irq0_source_enabled : ℕ → ℕ → Bool → W → W
  pub pio_interrupt_clear : ℕ → ℕ → W → W
  pub pr_task_exec : ℕ → W → W
  pub pr_task_exec_in_us : ℕ → ℕ → W → W

-- The word for the pixel at `i`.
abbrev pub word : Strip → ℕ → ℕ
word s i =
    let val = u32 (shl (get_or s.pixel_data i 0) 8) in if s.inv then 4294967295 - val else val

module _ {W : Type 0} (sdk : Sdk W) where
  open sdk use {
    pio_sm_is_tx_fifo_full, pio_sm_put, pio_set_irq0_source_enabled, pio_interrupt_clear,
    pr_task_exec, pr_task_exec_in_us,
  }

  -- The loop of `on_pixel_led_irq` on fuel; the Boolean returned is `done`.
  unfoldable pub push_loop : ℕ → Strip → W → Option (Strip × Bool × W)
  push_loop zero s w = none
  push_loop (suc fuel) s w =
      let rest =
        push_loop fuel (record s { offset = suc s.offset })
          (pio_sm_put s.pio s.sm (word s s.offset) w) in
      if pio_sm_is_tx_fifo_full s.pio s.sm w
      then some (s, false, w)
      else (if ltb s.offset s.pixel_count then rest else some (s, true, pio_sm_put s.pio s.sm 0 w))

  unfoldable pub on_pixel_led_irq : ℕ → Strip → W → Option (Strip × W)
  on_pixel_led_irq fuel s w = elim (push_loop fuel s w) [
    | none ↦ none
    | some (s', done, w') ↦ some (
      s',
      if done
          then pio_set_irq0_source_enabled s.pio s.sm false (pr_task_exec_in_us s.done_task 50 w')
          else pio_set_irq0_source_enabled s.pio s.sm true w',
    )
  ]

  -- `on_pio_irq`, from state machine `sm` on: every strip of the PIO is served.
  unfoldable pub on_pio_irq : ℕ → ℕ → ℕ → List (Option Strip) → W → Option (List (Option Strip) × W)
  on_pio_irq fuel pio sm [] w = some ([], w)
  on_pio_irq fuel pio sm (none ∷ strips) w =
      elim (on_pio_irq fuel pio (suc sm) strips (pio_interrupt_clear pio sm w)) [
        | none ↦ none
        | some (strips', w') ↦ some (none ∷ strips', w')
      ]
  on_pio_irq fuel pio sm (some s ∷ strips) w =
      elim (on_pixel_led_irq fuel s (pio_interrupt_clear pio sm w)) [
        | none ↦ none
        | some (s', w1) ↦ elim (on_pio_irq fuel pio (suc sm) strips w1) [
          | none ↦ none
          | some (strips', w') ↦ some (some s' ∷ strips', w')
        ]
      ]

  unfoldable pub on_refresh : Strip → W → Strip × W
  on_refresh s w = if s.refreshing then (s, w) else (
    record s { refreshing = true; dirty = false; offset = 0 },
    pio_set_irq0_source_enabled s.pio s.sm true w,
  )

  unfoldable pub on_done : Strip → W → Strip × W
  on_done s w =
      (record s { refreshing = false }, if s.dirty then pr_task_exec s.refresh_task w else w)

  -- `pr_pixel_led_refresh`, `_set_norefresh`, `_set` and `_set_many`; `none` is a failed assertion.
  abbrev pub refresh : Strip → W → W
  refresh s w = pr_task_exec s.refresh_task w

  abbrev pub set_norefresh : Strip → ℕ → ℕ → Option Strip
  set_norefresh s offset value =
      if ltb offset s.pixel_count
      then some (record s { dirty = true; pixel_data = list_set s.pixel_data offset value })
      else none

  unfoldable pub set : Strip → ℕ → ℕ → W → Option (Strip × W)
  set s offset value w = elim (set_norefresh s offset value) [
    | none ↦ none
    | some s' ↦ some (s', refresh s' w)
  ]

  unfoldable pub set_loop : Strip → ℕ → List ℕ → Option Strip
  set_loop s offset [] = some s
  set_loop s offset (value ∷ values) = elim (set_norefresh s offset value) [
    | none ↦ none
    | some s' ↦ set_loop s' (suc offset) values
  ]

  unfoldable pub set_many : Strip → ℕ → List ℕ → W → Option (Strip × W)
  set_many s offset values w = elim (set_loop s offset values) [
    | none ↦ none
    | some s' ↦ some (s', refresh s' w)
  ]

-- `pr_pixel_led_strip_init`, for what `set_up` does to the PIO, its interrupt and the tasks; `none` is a
-- failed assertion, and `storage` what `malloc` returns.
abbrev pub init :
    {W : Type 0}
    → Sdk W
    → (ℕ → ℕ → ℕ → Bool → W → W)
    → ℕ
    → ℕ
    → Option (List ℕ)
    → ℕ
    → ℕ
    → ℕ
    → ℕ
    → Bool
    → W
    → Option (Strip × W)
init sdk set_up refresh_task done_task none pio_index sm led_count pin_data inv w = none
init sdk set_up refresh_task done_task (some storage) pio_index sm led_count pin_data inv w =
    if ltb pio_index 2
    then (if ltb sm 4
        then some (
          record {
            pio = pio_index;
            sm = sm;
            refresh_task = refresh_task;
            done_task = done_task;
            pixel_data = replicate led_count 0;
            pixel_count = led_count;
            offset = 0;
            refreshing = false;
            dirty = false;
            inv = inv;
          },
          sdk.pr_task_exec refresh_task (
              set_up pio_index sm pin_data inv
                (sdk.pio_set_irq0_source_enabled pio_index sm false w)),
        )
        else none)
    else none
