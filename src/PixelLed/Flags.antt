-- ===== src/PixelLed/Flags.antt =====
-- The flags, the tasks and the interrupt of one strip of src/pixel_led/pixel_led.c, step by step.
use picore.Base.{
  ℕ, List, ◌≡◌, arith, Bool, true, false, not, ◌&&◌, ◌||◌, Option, some, set as list_set,
}
use picore.PixelLed.{
  Strip, Sdk, refresh, set, set_norefresh, set_many, on_pixel_led_irq, on_refresh, on_done,
}

-- Whether the tasks of a strip are pending, and whether its interrupt is enabled.
pub record Pending : Type 0 where
  pub refresh : Bool
  pub done : Bool
  pub irq : Bool

-- A change to show is scheduled, or will be seen at the end of the transfer, or the caller still owes
-- its refresh (`owed`); a transfer either is fed by the interrupt or
-- has its end scheduled; neither happens without a transfer, nor both.
abbrev pub consistent : Bool → Bool → Bool → Pending → Bool
consistent owed dirty refreshing p =
    (not dirty || (owed || (p.refresh || refreshing)))
    && ((not refreshing || (p.irq || p.done))
        && ((not p.irq || (refreshing && not p.done)) && (not p.done || refreshing)))

consistent-set :
    (owed dirty refreshing refresh done irq : Bool)
    → consistent owed dirty refreshing (record { refresh = refresh; done = done; irq = irq }) ≡ true
    → consistent false true refreshing (record { refresh = true; done = done; irq = irq }) ≡ true
consistent-set owed dirty refreshing refresh done irq e = ground (arith, e)

module _ {W : Type 0} (sdk : Sdk W) (pending : W → Pending) where
  -- What the calls that the driver makes do to these.
  pub record IsScheduler (pio sm refresh_task done_task : ℕ) : Type 0 where
    pub put : (v : ℕ) (w : W) → pending (sdk.pio_sm_put pio sm v w) ≡ pending w
    pub enabled :
        (on : Bool) (w : W)
        → pending (sdk.pio_set_irq0_source_enabled pio sm on w) ≡ record (pending w) { irq = on }
    pub executed :
        (w : W) → pending (sdk.pr_task_exec refresh_task w) ≡ record (pending w) { refresh = true }
    pub executed_later :
        (us : ℕ) (w : W)
        → pending (sdk.pr_task_exec_in_us done_task us w) ≡ record (pending w) { done = true }

  -- The strip, what its calls act on, and whether pixels have been set by `pr_pixel_led_set_norefresh`
  -- since the last refresh was asked for.
  abbrev pub State : Type 0
  State = Bool × (Strip × W)

  -- The steps of a strip that is alone on its PIO, so that only its own interrupt serves it: the
  -- functions of the header and those of the driver.
  pub data Step : State → State → Type 0 where
    passes :
        (owed : Bool) (s : Strip) (w w' : W)
        → pending w' ≡ pending w
        → Step (owed, (s, w)) (owed, (s, w'))
    sets_norefresh :
        (owed : Bool) (s s' : Strip) (w : W) (offset value : ℕ)
        → set_norefresh sdk s offset value ≡ some s'
        → Step (owed, (s, w)) (true, (s', w))
    sets :
        (owed : Bool) (s s' : Strip) (w w' : W) (offset value : ℕ)
        → set sdk s offset value w ≡ some (s', w')
        → Step (owed, (s, w)) (false, (s', w'))
    sets_many :
        (owed : Bool) (s s' : Strip) (w w' : W) (offset : ℕ) (values : List ℕ)
        → set_many sdk s offset values w ≡ some (s', w')
        → Step (owed, (s, w)) (false, (s', w'))
    refreshes :
        (owed : Bool) (s : Strip) (w : W) → Step (owed, (s, w)) (false, (s, refresh sdk s w))
    runs_refresh :
        (owed : Bool) (s : Strip) (w w' : W)
        → (pending w).refresh ≡ true
        → pending w' ≡ record (pending w) { refresh = false }
        → Step (owed, (s, w)) (owed, on_refresh sdk s w')
    runs_done :
        (owed : Bool) (s : Strip) (w w' : W)
        → (pending w).done ≡ true
        → pending w' ≡ record (pending w) { done = false }
        → Step (owed, (s, w)) (owed, on_done sdk s w')
    interrupts :
        (owed : Bool) (fuel : ℕ) (s s' : Strip) (w w' : W)
        → (pending w).irq ≡ true
        → on_pixel_led_irq sdk fuel s w ≡ some (s', w')
        → Step (owed, (s, w)) (owed, (s', w'))

  -- The calls on the tasks and the PIO of a strip.
  abbrev pub Schedules : Strip → Type 0
  Schedules s = IsScheduler s.pio s.sm s.refresh_task s.done_task

  -- What is to be shown has been scheduled, and a transfer has exactly one way to go on.
  abbrev pub Consistent : Bool → Strip × W → Type 0
  Consistent owed x = consistent owed x.0.dirty x.0.refreshing (pending x.1) ≡ true

  -- What setting pixels leaves.
  abbrev Kept : Strip → Strip → Type 0
  Kept s s' = (s'.refreshing ≡ s.refreshing) × (s'.refresh_task ≡ s.refresh_task)

  abbrev Keeps : Strip → W → Strip × Bool × W → Type 0
  Keeps s w r = (r.0.dirty ≡ s.dirty) × (r.0.refreshing ≡ s.refreshing) × (pending r.2 ≡ pending w)
