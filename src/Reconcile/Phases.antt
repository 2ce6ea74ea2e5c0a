-- ===== src/Reconcile/Phases.antt =====
-- What one call of `Reconcile` does in each phase.
use chaosblade_operator.Base.{
  ◌≤◌, ◌<◌, String, ◌≡◌, ◌≢◌, ◌⊎◌, ap, ◌∙◌, true, false, none, some, List, [], ◌∷◌, ◌==◌, ◌++◌,
  arith, length, if◌then◌else◌, index,
}
use chaosblade_operator.Api.{
  initial, initialized, running, updating, destroying, destroyed, error, ChaosBladeSpec, ChaosBlade,
  returns, panics,
}
use chaosblade_operator.Reconcile.Defs.{
  ReconcileChaosBlade, forget, is_phase, is_some, with_status, chaosblade_finalizer,
  finalize_chaos_blade, contains, initialize, create_experiments, destroy_old, update_experiments,
  reconcile_phase, reconcile,
}
use chaosblade_operator.Reconcile.Finalizers.{remove_once}
use chaosblade_operator.Reconcile.Loops.{
  any_success, all_success, create_each, destroy_each, create_loop_lem, finalize_loop_lem,
  update_loop_lem, update_loop_panics,
}

module _ {W : Type 0} (r : ReconcileChaosBlade W) (w : W) (cb : ChaosBlade)
    (found : r.client.get cb.name w ≡ some cb) (nonempty : cb.spec.experiments ≢ []) where
  reconcile_found : reconcile r cb.name w ≡ reconcile_phase r cb w
  unfolding reconcile
  reconcile_found = ground arith

  -- A stored resource with some experiment that is not being deleted, in phase Initialized or
  -- Updating: every experiment is created once, in order, and the status is written with their
  -- answers. The phase becomes Running if some creation succeeded and Error if none did.
  pub reconcile_creates :
      cb.deletion_timestamp ≡ none
      → (cb.status.phase ≡ initialized) ⊎ (cb.status.phase ≡ updating)
      → let (sts, w') = create_each r.executor cb.name cb.spec.experiments w in
        reconcile r cb.name w ≡ (
          returns forget,
          (r.client.update_status
              (with_status cb (if any_success sts then running else error) sts)
              w').1,
        )
  unfolding reconcile_phase create_experiments is_phase
  reconcile_creates alive phase =
      reconcile_found
      ∙ ground (arith, create_loop_lem r.executor cb.name cb.spec.experiments error [] w)

  module _ (doomed : (cb.status.phase ≡ destroying) ⊎ (is_some cb.deletion_timestamp ≡ true))
      (pending : cb.status.phase ≢ destroyed) where
    reconcile-finalize : reconcile r cb.name w ≡ finalize_chaos_blade r cb w
    unfolding reconcile_phase is_phase
    reconcile-finalize = reconcile_found ∙ ground arith

    -- A stored resource with some experiment and as many statuses as experiments, in phase
    -- Destroying or under deletion, and not yet Destroyed: each experiment is destroyed once, in
    -- order, and the answers are written. The phase becomes Destroyed if all succeeded, and
    -- Destroying otherwise.
    pub reconcile_finalizes :
        length cb.spec.experiments ≡ length cb.status.exp_statuses
        → let (sts, w') =
            destroy_each r.executor cb.name cb.spec.experiments cb.status.exp_statuses w in
          reconcile r cb.name w ≡ (
            returns forget,
            (r.client.update_status
                (with_status cb (if all_success sts then destroyed else destroying) sts)
                w').1,
          )
    unfolding finalize_chaos_blade
    reconcile_finalizes same =
        reconcile-finalize
        ∙ ground (
          arith,
          finalize_loop_lem r.executor cb.name cb.spec.experiments cb.status.exp_statuses destroyed
              [] w,
        )

    -- With another number of statuses than experiments nothing is destroyed, and the resource is
    -- written as Destroyed with the statuses that it had.
    pub reconcile_skips :
        length cb.spec.experiments ≢ length cb.status.exp_statuses
        → reconcile r cb.name w ≡ (
          returns forget,
          (r.client.update_status (with_status cb destroyed cb.status.exp_statuses) w).1,
        )
    unfolding finalize_chaos_blade
    reconcile_skips differ = reconcile-finalize ∙ ground arith

  -- A Destroyed resource whose finalizers hold the operator's once: the reconciler writes it
  -- without that finalizer, the others in order, and calls no executor.
  pub reconcile_releases :
      (pre post : List String)
      → cb.finalizers ≡ pre ++ (chaosblade_finalizer ∷ post)
      → contains pre chaosblade_finalizer ≡ false
      → contains post chaosblade_finalizer ≡ false
      → cb.status.phase ≡ destroyed
      → reconcile r cb.name w
        ≡ (returns forget, (r.client.update (record cb { finalizers = pre ++ post }) w).1)
  unfolding reconcile_phase is_phase
  reconcile_releases pre post fs hp hq phase =
      reconcile_found ∙ ground (arith, remove_once chaosblade_finalizer pre post)

  -- A new resource gets the finalizer first, by a write of the object, and is then moved to
  -- Initialized with no statuses, by a write of the status.
  pub reconcile_initializes :
      cb.status.phase ≡ initial
      → cb.deletion_timestamp ≡ none
      → reconcile r cb.name w ≡ (
        returns forget,
        (if contains cb.finalizers chaosblade_finalizer
            then r.client.update_status (with_status cb initialized []) w
            else r.client.update
                (record cb { finalizers = cb.finalizers ++ chaosblade_finalizer ∷ [] })
                w).1,
      )
  unfolding reconcile_phase is_phase initialize
  reconcile_initializes phase alive = reconcile_found ∙ ground arith

  module _ (alive : cb.deletion_timestamp ≡ none)
      (phase : (cb.status.phase ≡ running) ⊎ (cb.status.phase ≡ error)) {old : ChaosBladeSpec}
      (present : index cb.annotations "preSpec" == "" ≡ false)
      (parsed : r.unmarshal (index cb.annotations "preSpec") ≡ some old) where
    abbrev refreshed : ChaosBlade
    refreshed = (r.client.update cb w).0.object

    reconcile-destroy_old : reconcile r cb.name w ≡ destroy_old r cb old w
    unfolding reconcile_phase is_phase update_experiments
    reconcile-destroy_old = reconcile_found ∙ ground arith

    -- A stored resource in phase Running or Error with some experiment, not being deleted, whose
    -- annotation holds an old spec that can be read: the object is written, and if the written
    -- object has no more statuses than the old spec has experiments then every experiment that
    -- has a status is destroyed once under the old spec, in order, and the answers are written.
    -- The phase becomes Updating if all succeeded, and Destroying otherwise.
    pub reconcile_updates :
        length refreshed.status.exp_statuses ≤ length old.experiments
        → let (sts, w') =
            destroy_each r.executor refreshed.name old.experiments refreshed.status.exp_statuses
              (r.client.update cb w).1 in
          reconcile r cb.name w ≡ (
            returns forget,
            (r.client.update_status
                (with_status refreshed (if all_success sts then updating else destroying) sts)
                w').1,
          )
    unfolding destroy_old
    reconcile_updates fits =
        reconcile-destroy_old
        ∙ ground (
          arith,
          update_loop_lem r.executor refreshed.name refreshed.status.exp_statuses old.experiments
              updating [] (r.client.update cb w).1,
        )

    -- Under the same conditions but with more statuses than the old spec has experiments the
    -- reconciler panics: the loop over the statuses indexes the experiments of the old spec. The
    -- conditions: a stored resource in phase Running or Error with some experiment, not being
    -- deleted, whose annotation holds an old spec that can be read.
    pub reconcile_update_panics :
        length old.experiments < length refreshed.status.exp_statuses
        → (reconcile r cb.name w).0 ≡ panics
    unfolding destroy_old
    reconcile_update_panics short =
        ap (λ o. o.0) reconcile-destroy_old
        ∙ ground (
          arith,
          update_loop_panics r.executor refreshed.name refreshed.status.exp_statuses old.experiments
              updating [] (r.client.update cb w).1,
        )
