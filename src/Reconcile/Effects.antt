-- ===== src/Reconcile/Effects.antt =====
-- Every reconciliation is a run of the abstract machine of Machine.
use chaosblade_operator.Base.{
  String, ◌≡◌, ◌≢◌, ◌⊎◌, refl, ap, eq_iff, arith, Bool, true, false, ◌||◌, Option, none, some, List,
  [], ◌∷◌, ◌++◌, if◌then◌else◌, index, length, beq, ◌==◌,
}
use chaosblade_operator.Api.{
  ClusterPhase, initial, initialized, running, updating, destroying, destroyed, error, other,
  ExperimentSpec, ChaosBladeSpec, ExperimentStatus, ChaosBlade, Outcome, returns, panics,
}
use chaosblade_operator.Reconcile.Defs.{
  ReconcileChaosBlade, Result, forget, is_phase, is_some, contains, with_status, finalize_loop,
  update_loop, store_status, finalize_chaos_blade, initialize, create_experiments, destroy_old,
  update_experiments, reconcile_phase, reconcile, drop_finalizer, chaosblade_finalizer, remove,
}
use chaosblade_operator.Reconcile.Machine.{
  IsReady, begins, fails, updates, finishes, Effects, stops, writes, moves, Ends,
  create_loop-Effects, create_loop-Edge, finalize_loop-Effects, finalize_loop-Ends,
  update_loop-Effects, update_loop-Ends,
}

module _ {W : Type 0} (r : ReconcileChaosBlade W) where
  module _ {p : ClusterPhase} where
    store_status-Effects :
        (cb : ChaosBlade) (q : Outcome (ClusterPhase × List ExperimentStatus) × W)
        → Ends p q.0
        → Effects r p q.1 (store_status r cb q).1
    unfolding Ends
    store_status-Effects cb (panics, w) e = stops
    store_status-Effects cb (returns (q, sts), w) e = moves (with_status cb q sts) e

    if-Effects :
        {w : W} (b : Bool) (x y : Outcome Result × W)
        → (b ≡ true → Effects r p w x.1)
        → (b ≡ false → Effects r p w y.1)
        → Effects r p w (if b then x else y).1
    if-Effects true x y ex ey = ex refl
    if-Effects false x y ex ey = ey refl

    module _ (alive : p ≢ destroyed) (cb : ChaosBlade) (w : W) where
      abbrev exps : List ExperimentSpec
      exps = cb.spec.experiments

      abbrev sts : List ExperimentStatus
      sts = cb.status.exp_statuses

      finalize_if-Effects :
          (b : Bool)
          → Effects r p w
              (store_status r cb (
                if b
                then finalize_loop r.executor cb.name exps sts destroyed [] w
                else (returns (destroyed, sts), w))).1
      unfolding Ends
      finalize_if-Effects false = moves (with_status cb destroyed sts) (finishes alive)
      finalize_if-Effects true = finalize_loop-Effects r alive cb.name exps sts destroyed [] w (
          store_status-Effects cb (finalize_loop r.executor cb.name exps sts destroyed [] w)
            (finalize_loop-Ends r alive cb.name exps sts destroyed [] w (finishes alive)))

      finalize-Effects : Effects r p w (finalize_chaos_blade r cb w).1
      unfolding finalize_chaos_blade
      finalize-Effects = finalize_if-Effects (beq (length exps) (length sts))

    create-Effects :
        IsReady p → (cb : ChaosBlade) → (w : W) → Effects r p w (create_experiments r cb w).1
    unfolding create_experiments
    create-Effects ready cb w =
        create_loop-Effects r ready cb.name cb.spec.experiments error [] w
          (moves _ (create_loop-Edge r ready cb.name cb.spec.experiments error [] w (fails ready)))

    module _ (alive : p ≢ destroyed) (stable : (p ≡ running) ⊎ (p ≡ error)) (cb : ChaosBlade)
        (w : W) where
      destroy_old-Effects : (old : ChaosBladeSpec) → Effects r p w (destroy_old r cb old w).1
      unfolding destroy_old
      destroy_old-Effects old =
          let cb' = (r.client.update cb w).0.object in
          let w' = (r.client.update cb w).1 in
          let sts = cb'.status.exp_statuses in
          writes cb (
            update_loop-Effects r alive cb'.name sts old.experiments updating [] w' (
              store_status-Effects cb'
                (update_loop r.executor cb'.name sts old.experiments updating [] w')
                (update_loop-Ends r alive cb'.name sts old.experiments updating [] w'
                  (updates stable))))

      parsed-Effects :
          (old : Option ChaosBladeSpec)
          → Effects r p w
              (elim old as (λ x. Outcome Result × W) [
                | none ↦ (returns forget, w)
                | some spec ↦ destroy_old r cb spec w
              ]).1
      parsed-Effects none = stops
      parsed-Effects (some spec) = destroy_old-Effects spec

      update-Effects : Effects r p w (update_experiments r cb w).1
      unfolding update_experiments
      update-Effects =
          if-Effects (index cb.annotations "preSpec" == "") _ _ (λ e. stops)
            (λ e. parsed-Effects (r.unmarshal (index cb.annotations "preSpec")))

    drop_finalizer-Effects :
        (cb : ChaosBlade) (o : Outcome (List String)) (w : W)
        → Effects r p w (drop_finalizer r cb o w).1
    drop_finalizer-Effects cb panics w = stops
    drop_finalizer-Effects cb (returns fs) w = writes (record cb { finalizers = fs }) stops

    initialize-Effects :
        p ≡ initial → (cb : ChaosBlade) → (w : W) → Effects r p w (initialize r cb w).1
    unfolding initialize
    initialize-Effects e cb w =
        if-Effects (contains cb.finalizers chaosblade_finalizer) _ _
          (λ held. moves (with_status cb initialized []) (begins e))
          (λ fresh.
            writes (record cb { finalizers = cb.finalizers ++ chaosblade_finalizer ∷ [] }) stops)

  is_phase-eq : (p q : ClusterPhase) → is_phase p q ≡ true → p ≡ q
  unfolding is_phase
  is_phase-eq initial initial e = refl
  is_phase-eq initialized initialized e = refl
  is_phase-eq running running e = refl
  is_phase-eq updating updating e = refl
  is_phase-eq destroying destroying e = refl
  is_phase-eq destroyed destroyed e = refl
  is_phase-eq error error e = refl
  is_phase-eq (other a) (other b) e = ap (λ s. other s) ((eq_iff a b).0 e)
  is_phase-eq _ _ e = ground arith

  not_destroyed : (p : ClusterPhase) → is_phase p destroyed ≡ false → p ≢ destroyed
  unfolding is_phase
  not_destroyed p h e = ground arith

  either : (p q q' : ClusterPhase) → is_phase p q || is_phase p q' ≡ true → (p ≡ q) ⊎ (p ≡ q')
  either p q q' e = ground (arith, is_phase-eq p q, is_phase-eq p q')

  -- The chain of tests on the phase.
  phase-Effects : (cb : ChaosBlade) (w : W) → Effects r cb.status.phase w (reconcile_phase r cb w).1
  unfolding reconcile_phase
  phase-Effects cb w =
      if-Effects (is_phase cb.status.phase destroyed) _ _
        (λ e. drop_finalizer-Effects cb (remove cb.finalizers chaosblade_finalizer) w)
        (λ pending.
          if-Effects (is_phase cb.status.phase destroying || is_some cb.deletion_timestamp) _ _
            (λ e. finalize-Effects (not_destroyed cb.status.phase pending) cb w)
            (λ alive.
              if-Effects (is_phase cb.status.phase initial) _ _
                (λ e. initialize-Effects (is_phase-eq cb.status.phase initial e) cb w)
                (λ e.
                  if-Effects
                    (is_phase cb.status.phase initialized || is_phase cb.status.phase updating) _ _
                    (λ ready.
                      create-Effects (either cb.status.phase initialized updating ready) cb w)
                    (λ e'.
                      if-Effects
                        (is_phase cb.status.phase running || is_phase cb.status.phase error) _ _
                        (λ stable.
                          update-Effects (not_destroyed cb.status.phase pending)
                            (either cb.status.phase running error stable) cb w)
                        (λ e''. stops)))))

  listed-Effects :
      (exps : List ExperimentSpec) (cb : ChaosBlade) (w : W)
      → Effects r cb.status.phase w
          (elim exps as (λ x. Outcome Result × W) [
            | [] ↦ (returns forget, w)
            | exp ∷ rest ↦ reconcile_phase r cb w
          ]).1
  listed-Effects [] cb w = stops
  listed-Effects (exp ∷ rest) cb w = phase-Effects cb w

  -- Refinement of the phase machine. A reconciliation of a stored resource comes to the world by
  -- effects that the phase read allows: calls that create experiments only in phase Initialized or
  -- Updating, calls that destroy them in every phase but Destroyed, writes of the object, and at most
  -- one write of the status, the last effect, whose phase is along an edge of the machine. This holds
  -- for every executor and API server, also when writes fail or the reconciler panics.
  pub reconcile-Effects :
      (name : String) (w : W) (cb : ChaosBlade)
      → r.client.get name w ≡ some cb
      → Effects r cb.status.phase w (reconcile r name w).1
  unfolding reconcile
  reconcile-Effects name w cb found =
      rw (found, reconcile) (listed-Effects cb.spec.experiments cb w)
