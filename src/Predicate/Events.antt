-- ===== src/Predicate/Events.antt =====
-- Which watch events start a reconciliation, against the phases that the reconciler writes.
use mathlib.Core.Bool.{decide}
use chaosblade_operator.Base.{
  String, ◌≡◌, ◌≢◌, ◌⊎◌, inl, inr, refl, sym, ap, Bool, true, false, Option, none, some, arith,
  eq_iff,
}
use chaosblade_operator.Api.{
  ClusterPhase, initial, initialized, running, updating, destroying, destroyed, error, other,
  ChaosBladeSpec, ChaosBlade,
}
use chaosblade_operator.Reconcile.{is_phase, is_some}
use chaosblade_operator.Reconcile.Machine.{
  Edge, begins, starts, fails, updates, withdraws, finishes,
}
use chaosblade_operator.Predicate.{set_pre_spec, spec_eq, update_status, update}

decide_yes {ℓ} : {A : Type ℓ} (d : Dec A) → A → decide d ≡ true
unfolding decide
decide_yes (yes a) x = refl
decide_yes (no n) x = absurd (n x)

decide_no {ℓ} : {A : Type ℓ} (d : Dec A) → ¬ A → decide d ≡ false
unfolding decide
decide_no (yes a) n = absurd (n a)
decide_no (no m) n = refl

spec_eq_self : (a b : ChaosBladeSpec) → a ≡ b → spec_eq a b ≡ true
unfolding spec_eq
spec_eq_self a b e = decide_yes _ e

spec_eq_ne : (a b : ChaosBladeSpec) → a ≢ b → spec_eq a b ≡ false
unfolding spec_eq
spec_eq_ne a b n = decide_no _ n

is_phase_ne : (a b : ClusterPhase) → a ≢ b → is_phase a b ≡ false
unfolding is_phase
is_phase_ne (other a) (other b) n = ground (arith, eq_iff a b)
is_phase_ne initial initial n = absurd (n refl)
is_phase_ne initialized initialized n = absurd (n refl)
is_phase_ne running running n = absurd (n refl)
is_phase_ne updating updating n = absurd (n refl)
is_phase_ne destroying destroying n = absurd (n refl)
is_phase_ne destroyed destroyed n = absurd (n refl)
is_phase_ne error error n = absurd (n refl)
is_phase_ne _ _ n = refl

module _ (marshal : ChaosBladeSpec → Option String) (old new : ChaosBlade) where
  -- An edit of the spec starts a reconciliation, and the new object then carries the old spec as
  -- its only annotation, if the old spec can be marshalled.
  pub edit_triggers :
      {bytes : String}
      → new.spec ≢ old.spec
      → marshal old.spec ≡ some bytes
      → update marshal (some old) (some new) ≡ (true, some (set_pre_spec new bytes))
  unfolding update
  edit_triggers changed bytes = ground (arith, spec_eq_ne new.spec old.spec)

  module _ (same : new.spec ≡ old.spec) where
    update-update_status : update marshal (some old) (some new) ≡ (update_status old new, some new)
    unfolding update
    update-update_status = ground (arith, spec_eq_self new.spec old.spec)

    -- Without an edit: the mark for deletion, and every step to the phases Initial, Initialized,
    -- Updating and Destroyed from another phase, start a reconciliation.
    pub progress_triggers :
        ((old.deletion_timestamp ≡ none) × (is_some new.deletion_timestamp ≡ true))
          ⊎ ((old.status.phase ≢ new.status.phase)
              × ((new.status.phase ≡ initial)
                  ⊎ (new.status.phase ≡ initialized)
                  ⊎ (new.status.phase ≡ updating)
                  ⊎ (new.status.phase ≡ destroyed)))
        → update marshal (some old) (some new) ≡ (true, some new)
    unfolding update_status
    progress_triggers (inl marked) = rw update-update_status (ground arith)
    progress_triggers (inr (moved, phase)) =
        rw update-update_status
          (ground (arith, is_phase_ne new.status.phase old.status.phase (λ e. moved (sym e))))

    -- Whether there is more to do in a phase that the reconciler has written.
    abbrev pub wants_more : ClusterPhase → Bool
    wants_more running = false
    wants_more error = false
    wants_more destroying = false
    wants_more _ = true

    edge_lem :
        (p q : ClusterPhase)
        → old.status.phase ≡ p
        → new.status.phase ≡ q
        → Edge p q
        → is_some old.deletion_timestamp ≡ is_some new.deletion_timestamp
        → update_status old new ≡ wants_more q
    unfolding update_status is_phase
    edge_lem p initialized a b (begins e) m =
        ground (arith, is_phase_ne new.status.phase old.status.phase (λ x. cc (x, a, b, e)))
    edge_lem p running a b (starts e) m = ground arith
    edge_lem p error a b (fails e) m = ground arith
    edge_lem p updating a b (updates (inl e)) m =
        ground (arith, is_phase_ne new.status.phase old.status.phase (λ x. cc (x, a, b, e)))
    edge_lem p updating a b (updates (inr e)) m =
        ground (arith, is_phase_ne new.status.phase old.status.phase (λ x. cc (x, a, b, e)))
    edge_lem p destroying a b (withdraws e) m = ground arith
    edge_lem p destroyed a b (finishes e) m =
        ground (arith, is_phase_ne new.status.phase old.status.phase (λ x. e (cc (x, a, b))))
    edge_lem p initial a b edge m = elim edge [ ]
    edge_lem p (other _) a b edge m = elim edge [ ]

    -- The status that a reconciliation writes moves the resource along an edge of the phase machine.
    -- Such an event, without an edit and without a new mark for deletion, starts the next
    -- reconciliation exactly if the new phase is Initialized, Updating or Destroyed; Running, Error
    -- and Destroying rest.
    pub update-Edge :
        Edge old.status.phase new.status.phase
        → is_some old.deletion_timestamp ≡ is_some new.deletion_timestamp
        → update marshal (some old) (some new) ≡ (wants_more new.status.phase, some new)
    update-Edge edge marked =
        rw update-update_status (ap (λ b. (b, some new)) (edge_lem _ _ refl refl edge marked))
