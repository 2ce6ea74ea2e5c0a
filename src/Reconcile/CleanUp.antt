-- ===== src/Reconcile/CleanUp.antt =====
-- controller.go: periodicallyCleanUpBlade and startPeriodicallyCleanUpBlade, which run beside the
-- reconciler and take the finalizers from resources that stay in phase Destroying. The API server and
-- the durations of package time are parameters; `clock i` is the reading number `i` of the clock.
use chaosblade_operator.Base.{
  ℕ, zero, suc, ◌+◌, String, Bool, ◌&&◌, Option, none, some, List, [], ◌∷◌, ℤ, pos, negsuc,
  if◌then◌else◌,
}
use chaosblade_operator.Api.{ChaosBlade, destroying}
use chaosblade_operator.Reconcile.Defs.{is_phase}

-- What the clean-up uses of the client: the items that a list request leaves, also where it fails,
-- and the merge patch {"metadata":{"finalizers":[]}} of a resource, whose error is only logged.
pub record Cleaner (W : Type 0) : Type 0 where
  pub list : W → List ChaosBlade × W
  pub patch : String → W → W

-- Whether now - stamp is more than the interval, in seconds as float64.
abbrev pub Exceeds : Type 0
Exceeds = ℕ → ℕ → ℤ → Bool

module _ {W : Type 0} (cleaner : Cleaner W) (exceeds : Exceeds) (clock : ℕ → ℕ) (interval : ℤ) where
  abbrev pub doomed_at : ChaosBlade → ℕ → ℕ → Bool
  doomed_at item i stamp = is_phase item.status.phase destroying && exceeds (clock i) stamp interval

  -- The loop over the items; `i` counts the readings of the clock.
  unfoldable pub clean_up_each : List ChaosBlade → ℕ → W → W
  unfolding is_phase
  clean_up_each [] i w = w
  clean_up_each (item ∷ items) i w = elim item.deletion_timestamp [
    | none ↦ clean_up_each items i w
    | some stamp ↦
        clean_up_each items (i + 1)
          (if doomed_at item i stamp then cleaner.patch item.name w else w)
  ]

  unfoldable pub periodically_clean_up_blade : W → W
  unfolding clean_up_each
  periodically_clean_up_blade w = let (items, w') = cleaner.list w in clean_up_each items 0 w'

-- How the goroutine goes: the process exits by Fatalf, NewTicker panics, or it goes on with each tick.
pub data Started : Type 0 where
  exited crashed ticking : Started

module _ {W : Type 0} (cleaner : Cleaner W) (exceeds : Exceeds) (parse_duration : String → Option ℤ)
    (period : ℤ → ℤ) where
  -- One pass for each tick, with its readings of the clock.
  unfoldable pub ticked : ℤ → List (ℕ → ℕ) → W → W
  unfolding periodically_clean_up_blade
  ticked interval [] w = w
  ticked interval (clock ∷ clocks) w =
      ticked interval clocks (periodically_clean_up_blade cleaner exceeds clock interval w)

  -- NewTicker panics unless the duration is positive.
  abbrev ticker : ℤ → (W → W) → W → Started × W
  ticker (negsuc n) more w = (crashed, w)
  ticker (pos zero) more w = (crashed, w)
  ticker (pos (suc n)) more w = (ticking, more w)

  -- The first pass, and the ticker behind it; `period` is the whole seconds of a duration.
  abbrev run : ℤ → (ℕ → ℕ) → List (ℕ → ℕ) → W → Started × W
  run interval clock clocks w =
      ticker (period interval) (ticked interval clocks)
        (periodically_clean_up_blade cleaner exceeds clock interval w)

  unfoldable pub start_periodically_clean_up_blade :
      String → (ℕ → ℕ) → List (ℕ → ℕ) → W → Started × W
  unfolding ticked periodically_clean_up_blade
  start_periodically_clean_up_blade setting clock clocks w = elim (parse_duration setting) [
    | some interval ↦ run interval clock clocks w
    | none ↦ elim (parse_duration "72h") [
      | some interval ↦ run interval clock clocks w
      | none ↦ (exited, w)
    ]
  ]
