-- ===== src/Button.antt =====
-- src/button/button.c: a task that samples a pin. The level of the pin, `pr_task_exec` and
-- `pr_task_init` are parameters and act on a state `W`; a task is a handle.
pub mod Presses
mod Tests
use picore.Base.{
  ℕ, ◌==◌, ◌≡◌, refl, Bool, true, false, not, Option, none, some, List, [], ◌∷◌, if◌then◌else◌, ◌%◌,
}

-- `struct pr_button`
pub record Button : Type 0 where
  pub worker : ℕ
  pub wake : Option ℕ
  pub io : ℕ
  pub active_high : Bool
  pub last_value : Bool
  pub mask : ℕ

abbrev pub is_same : Bool → Bool → Bool
is_same a b = if a then b else not b

module _ {W : Type 0} (gpio_get : ℕ → W → Bool) (exec : Option ℕ → W → W)
    (task_init : ℕ → W → W) where
  unfoldable pub on_work : Button → W → Button × W
  on_work button w =
      let value = gpio_get button.io w in
      let (button', w') = if is_same value button.last_value then (button, w) else (
        record button { last_value = value },
        if is_same value button.active_high then exec button.wake w else w,
      ) in
      (button', exec (some button'.worker) w')

  -- `pr_button_init`, which stores the pin in a `uint8_t`.
  unfoldable pub init : ℕ → Option ℕ → ℕ → Bool → W → Button × W
  init worker wake pin active_high w =
      let io = pin % 256 in
      let w1 = task_init worker w in
      let button : Button = record {
        worker = worker;
        wake = wake;
        io = io;
        active_high = active_high;
        last_value = gpio_get io w1;
        mask = 0;
      } in
      (button, exec (some worker) w1)
