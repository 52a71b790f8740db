-- ===== src/GpioIrq/Tests.antt =====
-- An interrupt of src/gpio_irq/gpio_irq.c at a concrete table.
use picore.Base.{ℕ, ◌+◌, Option, none, List, replicate}

abbrev nothing : List (Option ℕ)
nothing = replicate 30 none

-- The state counts the tasks that are run.
abbrev count : Option ℕ → ℕ → ℕ
count task w = w + 1
