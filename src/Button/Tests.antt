-- ===== src/Button/Tests.antt =====
-- A button of src/button/button.c whose pin takes a sequence of levels.
use picore.Base.{
  ℕ, suc, ◌==◌, if◌then◌else◌, none, ◌≡◌, refl, Bool, true, false, Option, some, List, [], ◌∷◌,
}
use picore.Button.{Button, on_work, init}
use picore.Button.Presses.{runs, IsCounter, none_left, one_more, init-presses}

-- The levels to come, and the tasks run so far, the last first.
record Board : Type 0 where
  levels : List Bool
  tasks : List (Option ℕ)

abbrev gpio_get : ℕ → Board → Bool
gpio_get pin b = elim b.levels [ [] ↦ false | level ∷ rest ↦ level ]

abbrev exec : Option ℕ → Board → Board
exec task b = record b { tasks = task ∷ b.tasks }

abbrev task_init : ℕ → Board → Board
task_init task b = b

-- Another run of the worker for each level.
abbrev samples : List Bool → Button × Board → Button × Board
samples [] (button, b) = (button, b)
samples (level ∷ rest) (button, b) =
    samples rest (on_work gpio_get exec task_init button (record b { levels = level ∷ [] }))

abbrev at_rest : Board
at_rest = record { levels = []; tasks = [] }

-- A press wakes the task 7, a release does not.
press :
    (samples
      (true ∷ true ∷ false ∷ [])
      (init gpio_get exec task_init 1 (some 7) 3 true at_rest)).1.tasks
    ≡ some 1 ∷ some 1 ∷ some 1 ∷ some 7 ∷ some 1 ∷ []
unfolding on_work init
press = refl

-- A pin with a level, and how often the task 7 has been told.
record Told : Type 0 where
  level : Bool
  count : ℕ

abbrev told_get : ℕ → Told → Bool
told_get pin w = w.level

abbrev told_exec : Option ℕ → Told → Told
told_exec none w = w
told_exec (some task) w = if task == 7 then record w { count = suc w.count } else w

abbrev told_init : ℕ → Told → Told
told_init task w = w

told-IsCounter : IsCounter told_get told_exec told_init (λ w. w.count) (some 7) 1
told-IsCounter = record { told = λ w. refl; other = λ w. refl; set_up = λ w. refl }

abbrev turn_to : Bool → Told → Told
turn_to level w = record w { level = level }

-- Two presses, the second seen twice.
init-presses_example :
    let (button, w) =
      init told_get told_exec told_init 1 (some 7) 3 true (record { level = false; count = 0 }) in
    (runs told_get told_exec told_init
      (turn_to true ∷ turn_to false ∷ turn_to true ∷ turn_to true ∷ [])
      button
      w).1.count
    ≡ 2
unfolding on_work init
init-presses_example =
    init-presses told_get told_exec told_init (λ w. w.count) 1 (some 7) 3 true
      (record { level = false; count = 0 })
      (turn_to true ∷ turn_to false ∷ turn_to true ∷ turn_to true ∷ []) told-IsCounter
      (one_more (λ w. refl)
        (one_more (λ w. refl) (one_more (λ w. refl) (one_more (λ w. refl) none_left))))
