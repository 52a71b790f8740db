-- ===== src/GpioIrq.antt =====
-- src/gpio_irq/gpio_irq.c: tasks that interrupts of GPIO pins run. The SDK's functions and
-- `pr_task_exec` are parameters and act on a state `W`; the table `g_irq.handler` is a list.
pub mod Bound
mod Tests
use picore.Base.{
  ℕ, ◌/◌, ◌%◌, ◌==◌, ◌||◌, Bool, true, false, not, Option, none, some, List, if◌then◌else◌, ltb,
  leb, get_or, set,
}

abbrev pub table_size : ℕ
table_size = 30

-- `event_mask & (GPIO_IRQ_LEVEL_LOW | GPIO_IRQ_LEVEL_HIGH)`, which are the bits 0 and 1.
abbrev pub is_level : ℕ → Bool
is_level event_mask = not (event_mask % 4 == 0)

module _ {W : Type 0} (acknowledge : ℕ → ℕ → W → W) (set_enabled : ℕ → ℕ → Bool → W → W)
    (exec : Option ℕ → W → W) where
  -- `gpio_irq_callback`; `none` is the load behind the end of the table, which the code makes before
  -- it tests the pin, so that the test never holds after a load that is defined.
  unfoldable pub callback : List (Option ℕ) → ℕ → ℕ → W → Option W
  callback table gpio event_mask w =
      let w1 = acknowledge gpio event_mask w in
      let w2 = if is_level event_mask then set_enabled gpio event_mask false w1 else w1 in
      if leb table_size gpio
      then none
      else (if leb 31 gpio then some w else (elim (get_or table gpio none) [
        | none ↦ some w2
        | some task ↦ some (exec (some task) w2)
      ]))

  -- `pr_gpio_irq_mask_set`
  unfoldable pub mask_set : ℕ → ℕ → W → W
  mask_set gpio event_mask w = set_enabled gpio event_mask (not (event_mask == 0)) w

-- `pr_gpio_irq_bind`; `prepare` stands for the four calls that make the pin an input, and `none` is
-- a store behind the end of the table.
unfoldable pub bind :
    {W : Type 0} → (ℕ → W → W) → List (Option ℕ) → ℕ → Option ℕ → W → Option (List (Option ℕ) × W)
bind prepare table gpio task w =
    if leb table_size gpio then none else some (set table gpio task, prepare gpio w)

-- `pr_gpio_irq_hookup`, with the calls that install the callback and that enable the bank's interrupt.
unfoldable pub hookup : {W : Type 0} → (W → W) → (Bool → W → W) → W → W
hookup set_callback irq_set_enabled w = irq_set_enabled true (set_callback w)
