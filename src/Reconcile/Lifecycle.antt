-- ===== src/Reconcile/Lifecycle.antt =====
-- The resource's life over several reconciliations, against an API server whose writes succeed.
use text.Mathlib.TextPositions.{eq_refl}
use chaosblade_operator.Base.{
  String, ◌≡◌, ◌≢◌, ◌⊎◌, inl, inr, refl, ap, ◌∙◌, true, false, Option, none, some, List, [], ◌∷◌,
  ◌++◌, arith, length, if◌then◌else◌,
}
use chaosblade_operator.Api.{
  initial, initialized, running, destroying, destroyed, error, ExperimentSpec, ExperimentStatus,
  ChaosBlade, Outcome,
}
use chaosblade_operator.Reconcile.Defs.{
  ReconcileChaosBlade, is_some, contains, with_status, chaosblade_finalizer, reconcile, Result,
}
use chaosblade_operator.Reconcile.Finalizers.{contains-append}
use chaosblade_operator.Reconcile.Loops.{any_success, all_success, create_each, destroy_each}
use chaosblade_operator.Reconcile.Phases.{
  reconcile_creates, reconcile_finalizes, reconcile_initializes, reconcile_releases,
}

-- The documented behaviour of the API server for a resource with a status subresource, where no
-- other client writes: an update keeps the stored status, a status update keeps all else, and a
-- resource under deletion goes once its last finalizer is written away. The executor's work in the
-- cluster leaves the resource alone.
pub record Quiet {W : Type 0} (r : ReconcileChaosBlade W) : Type 0 where
  pub update_writes :
      (cb stored : ChaosBlade) (w : W)
      → r.client.get cb.name w ≡ some stored
      → (stored.deletion_timestamp ≡ none) ⊎ (cb.finalizers ≢ [])
      → r.client.get cb.name (r.client.update cb w).1 ≡ some (record cb { status = stored.status })
  pub last_finalizer :
      (cb stored : ChaosBlade) (w : W)
      → r.client.get cb.name w ≡ some stored
      → is_some stored.deletion_timestamp ≡ true
      → cb.finalizers ≡ []
      → r.client.get cb.name (r.client.update cb w).1 ≡ none
  pub status_writes :
      (cb stored : ChaosBlade) (w : W)
      → r.client.get cb.name w ≡ some stored
      → r.client.get cb.name (r.client.update_status cb w).1
        ≡ some (record stored { status = cb.status })
  pub create_elsewhere :
      (name n : String) (exp : ExperimentSpec) (w : W)
      → r.client.get n (r.executor.create name exp w).1 ≡ r.client.get n w
  pub destroy_elsewhere :
      (name n : String) (exp : ExperimentSpec) (old : ExperimentStatus) (w : W)
      → r.client.get n (r.executor.destroy name exp old w).1 ≡ r.client.get n w

module _ {W : Type 0} (r : ReconcileChaosBlade W) where
  -- The world after one reconciliation.
  abbrev pub step : String → W → W
  step name w = (reconcile r name w).1

  get-step :
      (n name : String) (w : W) {o : Outcome Result} {w' : W} {x : Option ChaosBlade}
      → reconcile r name w ≡ (o, w')
      → r.client.get n w' ≡ x
      → r.client.get n (step name w) ≡ x
  get-step n name w e h = ap (λ p. r.client.get n p.1) e ∙ h

module _ {W : Type 0} (r : ReconcileChaosBlade W) (q : Quiet r) where
  get-create_each :
      (name n : String) (exps : List ExperimentSpec) (w : W)
      → r.client.get n (create_each r.executor name exps w).1 ≡ r.client.get n w
  unfolding create_each
  get-create_each name n [] w = refl
  get-create_each name n (exp ∷ exps) w =
      get-create_each name n exps (r.executor.create name exp w).1 ∙ q.create_elsewhere name n exp w

  get-destroy_each :
      (name n : String) (exps : List ExperimentSpec) (sts : List ExperimentStatus) (w : W)
      → r.client.get n (destroy_each r.executor name exps sts w).1 ≡ r.client.get n w
  unfolding destroy_each
  get-destroy_each name n [] sts w = refl
  get-destroy_each name n (exp ∷ exps) [] w = refl
  get-destroy_each name n (exp ∷ exps) (old ∷ sts) w =
      get-destroy_each name n exps sts (r.executor.destroy name exp old w).1
      ∙ q.destroy_elsewhere name n exp old w

  module _ (cb : ChaosBlade) (w : W) (stored : r.client.get cb.name w ≡ some cb)
      (nonempty : cb.spec.experiments ≢ []) where
    module _ (alive : cb.deletion_timestamp ≡ none) where
      -- The finalizer is written first.
      add_finalizer :
          cb.status.phase ≡ initial
          → contains cb.finalizers chaosblade_finalizer ≡ false
          → r.client.get cb.name (step r cb.name w)
            ≡ some (record cb { finalizers = cb.finalizers ++ chaosblade_finalizer ∷ [] })
      add_finalizer phase fresh =
          get-step r cb.name cb.name w (reconcile_initializes r w cb stored nonempty phase alive) (
            rw fresh (
              q.update_writes
                (record cb { finalizers = cb.finalizers ++ chaosblade_finalizer ∷ [] }) cb w stored
                (inl alive)))

      initialize_status :
          cb.status.phase ≡ initial
          → contains cb.finalizers chaosblade_finalizer ≡ true
          → r.client.get cb.name (step r cb.name w) ≡ some (with_status cb initialized [])
      initialize_status phase held =
          get-step r cb.name cb.name w (reconcile_initializes r w cb stored nonempty phase alive)
            (rw held (q.status_writes (with_status cb initialized []) cb w stored))

      create_status :
          cb.status.phase ≡ initialized
          → let (sts, w') = create_each r.executor cb.name cb.spec.experiments w in
            r.client.get cb.name (step r cb.name w)
            ≡ some (with_status cb (if any_success sts then running else error) sts)
      create_status phase =
          let (sts, w') = create_each r.executor cb.name cb.spec.experiments w in
          get-step r cb.name cb.name w (reconcile_creates r w cb stored nonempty alive (inl phase))
            (q.status_writes (with_status cb (if any_success sts then running else error) sts) cb w'
              (get-create_each cb.name cb.name cb.spec.experiments w ∙ stored))

    module _ (doomed : is_some cb.deletion_timestamp ≡ true) (pending : cb.status.phase ≢ destroyed)
        (same : length cb.spec.experiments ≡ length cb.status.exp_statuses) where
      finalize_status :
          let (sts, w') =
            destroy_each r.executor cb.name cb.spec.experiments cb.status.exp_statuses w in
          r.client.get cb.name (step r cb.name w)
          ≡ some (with_status cb (if all_success sts then destroyed else destroying) sts)
      finalize_status =
          let (sts, w') =
            destroy_each r.executor cb.name cb.spec.experiments cb.status.exp_statuses w in
          get-step r cb.name cb.name w
            (reconcile_finalizes r w cb stored nonempty (inr doomed) pending same)
            (q.status_writes
              (with_status cb (if all_success sts then destroyed else destroying) sts) cb w'
              (get-destroy_each cb.name cb.name cb.spec.experiments cb.status.exp_statuses w
                ∙ stored))

      -- Against an API server as `Quiet` describes it, a stored resource under deletion, not yet
      -- in phase Destroyed, with some experiment and as many statuses as experiments, one of
      -- whose experiments could not be destroyed: after one reconciliation it is still stored, in
      -- phase Destroying, with its finalizers and the new statuses.
      pub failed_destroy_retains :
          let sts =
            (destroy_each r.executor cb.name cb.spec.experiments cb.status.exp_statuses w).0 in
          all_success sts ≡ false
          → r.client.get cb.name (step r cb.name w) ≡ some (with_status cb destroying sts)
      failed_destroy_retains failed = finalize_status ∙ rw failed

      -- Against an API server as `Quiet` describes it, a stored resource under deletion, not yet
      -- in phase Destroyed, with some experiment and as many statuses as experiments, that holds
      -- only the operator's finalizer: if every experiment can be destroyed then it is gone from
      -- the API server after two reconciliations.
      pub deletion_completes :
          let sts =
            (destroy_each r.executor cb.name cb.spec.experiments cb.status.exp_statuses w).0 in
          all_success sts ≡ true
          → cb.finalizers ≡ chaosblade_finalizer ∷ []
          → r.client.get cb.name (step r cb.name (step r cb.name w)) ≡ none
      unfolding contains
      deletion_completes succeeded only =
          get-step r cb.name cb.name w'
            (reconcile_releases r w' cb' stored' nonempty [] [] only refl refl refl)
            (q.last_finalizer (record cb' { finalizers = [] }) cb' w' stored' doomed refl)
        where
          sts : List ExperimentStatus
          sts = (destroy_each r.executor cb.name cb.spec.experiments cb.status.exp_statuses w).0

          cb' : ChaosBlade
          cb' = with_status cb destroyed sts

          w' : W
          w' = step r cb.name w

          stored' : r.client.get cb.name w' ≡ some cb'
          stored' = finalize_status ∙ rw succeeded

  -- The finalizer that `add_finalizer` writes is found by `contains`.
  contains-added :
      (fs : List String) → contains (fs ++ chaosblade_finalizer ∷ []) chaosblade_finalizer ≡ true
  unfolding contains
  contains-added fs = ground (
    arith,
    contains-append fs (chaosblade_finalizer ∷ []) chaosblade_finalizer,
    eq_refl chaosblade_finalizer,
  )

  -- Against an API server as `Quiet` describes it, a stored resource in phase Initial with some
  -- experiment, that is not being deleted and does not hold the finalizer: after three
  -- reconciliations it is stored with the finalizer added, its other fields as they were, and a
  -- status for every experiment from the one creation of each; the phase is Running if some
  -- creation succeeded, and Error if none did.
  pub creation_completes :
      (cb : ChaosBlade) (w : W)
      → r.client.get cb.name w ≡ some cb
      → cb.spec.experiments ≢ []
      → cb.deletion_timestamp ≡ none
      → cb.status.phase ≡ initial
      → contains cb.finalizers chaosblade_finalizer ≡ false
      → let w'' = step r cb.name (step r cb.name w) in
        let sts = (create_each r.executor cb.name cb.spec.experiments w'').0 in
        r.client.get cb.name (step r cb.name w'')
        ≡ some (
            with_status
              (record cb { finalizers = cb.finalizers ++ chaosblade_finalizer ∷ [] })
              (if any_success sts then running else error)
              sts)
  creation_completes cb w stored nonempty alive phase fresh =
      create_status (with_status held initialized []) (step r cb.name (step r cb.name w))
        (initialize_status held (step r cb.name w)
          (add_finalizer cb w stored nonempty alive phase fresh) nonempty alive phase
          (contains-added cb.finalizers))
        nonempty alive refl
    where
      held : ChaosBlade
      held = record cb { finalizers = cb.finalizers ++ chaosblade_finalizer ∷ [] }
