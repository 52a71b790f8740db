-- ===== src/Button/Presses.antt =====
-- What a button of src/button/button.c tells its task, over any number of runs of its worker.
use picore.Base.{
  ℕ, suc, ◌+◌, ◌≡◌, ◌%◌, refl, sym, ap, ◌∙◌, arith, inl, inr, Bool-cases, Bool, true, false, not,
  ◌&&◌, Option, some, List, [], ◌∷◌, if◌then◌else◌, subst,
}
use picore.Button.{Button, is_same, on_work, init}

-- How often a pin that is at `last` and takes the given levels becomes active.
abbrev pub presses : Bool → Bool → List Bool → ℕ
presses active last [] = 0
presses active last (level ∷ levels) =
    (if is_same level active && not (is_same last active) then 1 else 0)
    + presses active level levels

is_same-eq : (v l : Bool) → is_same v l ≡ true → l ≡ v
is_same-eq true true e = refl
is_same-eq false false e = refl
is_same-eq true false e = ground (arith, e)
is_same-eq false true e = ground (arith, e)

abbrev pressed : Bool → Bool → Bool → ℕ
pressed active last level = if is_same level active && not (is_same last active) then 1 else 0

pressed-same : (v l a : Bool) → is_same v l ≡ true → pressed a l v ≡ 0
pressed-same true l true e = ground (arith, e)
pressed-same true l false e = refl
pressed-same false l true e = refl
pressed-same false l false e = ground (arith, e)

pressed-other :
    (v l a : Bool) → is_same v l ≡ false → pressed a l v ≡ (if is_same v a then 1 else 0)
pressed-other true l true e = ground (arith, e)
pressed-other true l false e = refl
pressed-other false l true e = refl
pressed-other false l false e = ground (arith, e)

module _ {W : Type 0} (gpio_get : ℕ → W → Bool) (exec : Option ℕ → W → W)
    (task_init : ℕ → W → W) where
  -- The worker runs again, each time after something else has happened.
  abbrev pub runs : List (W → W) → Button → W → Button × W
  runs [] button w = (button, w)
  runs (event ∷ events) button w =
      let (button', w') = on_work gpio_get exec task_init button (event w) in runs events button' w'

  -- The levels that these runs find at the pin.
  abbrev pub seen : List (W → W) → Button → W → List Bool
  seen [] button w = []
  seen (event ∷ events) button w =
      let (button', w') = on_work gpio_get exec task_init button (event w) in
      gpio_get button.io (event w) ∷ seen events button' w'

  -- The task `wake` is told only by its executions, which are counted; the worker is another task.
  pub record IsCounter (woken : W → ℕ) (wake : Option ℕ) (worker : ℕ) : Type 0 where
    pub told : (w : W) → woken (exec wake w) ≡ suc (woken w)
    pub other : (w : W) → woken (exec (some worker) w) ≡ woken w
    pub set_up : (w : W) → woken (task_init worker w) ≡ woken w

  module _ (woken : W → ℕ) (button : Button) (c : IsCounter woken button.wake button.worker) where
    counted :
        (b : Bool) (w : W)
        → woken (if b then exec button.wake w else w) ≡ woken w + (if b then 1 else 0)
    counted true w = omega (arith, c.told w)
    counted false w = omega arith

    on_work_lem :
        (w : W)
        → let (button', w') = on_work gpio_get exec task_init button w in
          (button' ≡ record button { last_value = gpio_get button.io w })
          × (woken w'
              ≡ woken w + presses button.active_high button.last_value (gpio_get button.io w ∷ []))
    unfolding on_work
    on_work_lem w =
        let value = gpio_get button.io w in
        let last = button.last_value in
        let active = button.active_high in
        elim (Bool-cases (is_same value last)) [
          | inl same ↦
              let none_told = pressed-same value last active same in
              rw same (
                ap (λ l. record button { last_value = l }) (is_same-eq value last same),
                c.other w ∙ omega (arith, none_told),
              )
          | inr differs ↦
              let told = pressed-other value last active differs in
              rw differs (
                refl,
                c.other (if is_same value active then exec button.wake w else w)
                    ∙ counted (is_same value active) w
                    ∙ omega (arith, told),
              )
        ]

  -- Events that leave the count alone.
  pub data AreSilent (woken : W → ℕ) : List (W → W) → Type 0 where
    none_left : AreSilent woken []
    one_more :
        {event : W → W} {events : List (W → W)}
        → ((w : W) → woken (event w) ≡ woken w)
        → AreSilent woken events
        → AreSilent woken (event ∷ events)

  runs-presses :
      (woken : W → ℕ) (events : List (W → W)) (button : Button) (w : W)
      → IsCounter woken button.wake button.worker
      → AreSilent woken events
      → woken (runs events button w).1
        ≡ woken w + presses button.active_high button.last_value (seen events button w)
  runs-presses woken [] button w c s = omega arith
  runs-presses woken (event ∷ events) button w c (one_more keeps s) =
      let next = on_work gpio_get exec task_init button (event w) in
      let (same, told) = on_work_lem woken button c (event w) in
      let levels = seen events next.0 next.1 in
      let rest =
        runs-presses woken events next.0 next.1
          (subst (λ b. IsCounter woken b.wake b.worker) (sym same) c) s in
      let from : presses next.0.active_high next.0.last_value levels
          ≡ presses button.active_high (gpio_get button.io (event w)) levels =
        ap (λ b. presses b.active_high b.last_value levels) same in
      omega (arith, rest, told, from, keeps w)

  -- Between the runs of the worker, whatever happens and whatever it does to the pin, as long as it
  -- does not tell the task of the button: from its initialisation on, which tells nothing, the button
  -- tells that task, which is not its worker, as often as the pin, at the level found by the
  -- initialisation and then at those found by the runs, has become active.
  pub init-presses :
      (woken : W → ℕ) (worker : ℕ) (wake : Option ℕ) (pin : ℕ) (active : Bool) (w : W)
      (events : List (W → W))
      → IsCounter woken wake worker
      → AreSilent woken events
      → let (button, w') = init gpio_get exec task_init worker wake pin active w in
        woken (runs events button w').1
        ≡ woken w
          + presses active (gpio_get (pin % 256) (task_init worker w)) (seen events button w')
  unfolding init
  init-presses woken worker wake pin active w events c s =
      let (button, w') = init gpio_get exec task_init worker wake pin active w in
      runs-presses woken events button w' c s
      ∙ ap (λ k. k + presses active button.last_value (seen events button w'))
          (c.other (task_init worker w) ∙ c.set_up w)
