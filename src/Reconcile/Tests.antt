-- ===== src/Reconcile/Tests.antt =====
-- Runs of the reconciler against a server that holds one resource, and the theorems at those inputs.
use chaosblade_operator.Base.{
  String, ◌≡◌, inl, inr, refl, Bool, true, false, ◌&&◌, Option, none, some, List, [], ◌∷◌, ◌==◌,
  arith, if◌then◌else◌,
}
use chaosblade_operator.Api.{
  ClusterPhase, initial, initialized, running, updating, destroying, ExperimentSpec,
  ExperimentStatus, ChaosBladeSpec, ChaosBlade, zero_status, returns, panics,
}
use chaosblade_operator.Reconcile.Defs.{
  Reply, ReconcileChaosBlade, forget, is_some, contains, with_status, chaosblade_finalizer, remove,
  reconcile,
}
use chaosblade_operator.Reconcile.Finalizers.{remove_once}
use chaosblade_operator.Reconcile.Loops.{any_success, all_success, create_each, destroy_each}
use chaosblade_operator.Reconcile.Phases.{
  reconcile_creates, reconcile_finalizes, reconcile_updates, reconcile_update_panics,
}
use chaosblade_operator.Reconcile.Machine.{Effects}
use chaosblade_operator.Reconcile.Effects.{reconcile-Effects}
use chaosblade_operator.Reconcile.Lifecycle.{
  Quiet, step, creation_completes, deletion_completes, failed_destroy_retains,
}

abbrev Server : Type 0
Server = Option ChaosBlade

abbrev is_empty : List String → Bool
is_empty [] = true
is_empty (x ∷ xs) = false

abbrev put : ChaosBlade → Server → Reply × Server
put cb none = (record { ok = false; object = cb }, none)
put cb (some old) =
    let new = record cb { status = old.status } in
    (
      record { ok = true; object = new },
      if is_some old.deletion_timestamp && is_empty cb.finalizers then none else some new,
    )

abbrev put_status : ChaosBlade → Server → Reply × Server
put_status cb none = (record { ok = false; object = cb }, none)
put_status cb (some old) =
    let new = record old { status = cb.status } in (record { ok = true; object = new }, some new)

-- An executor that succeeds on every scope but "node".
abbrev answer : ExperimentSpec → ExperimentStatus
answer exp = record zero_status { success = if exp.scope == "node" then false else true }

abbrev pod_exp : ExperimentSpec
pod_exp = record { scope = "pod"; target = "cpu"; action = "load"; desc = ""; matchers = [] }

abbrev node_exp : ExperimentSpec
node_exp = record pod_exp { scope = "node" }

abbrev spec_of : List ExperimentSpec → ChaosBladeSpec
spec_of exps = record { experiments = exps }

abbrev operator : ReconcileChaosBlade Server
operator = record {
  client = record { get = λ name w. w; update = put; update_status = put_status };
  executor = record {
    create = λ name exp w. (answer exp, w);
    destroy = λ name exp old w. (answer exp, w);
  };
  unmarshal = λ s. if s == "one" then some (spec_of (pod_exp ∷ [])) else none;
}

-- The laws of the server hold of it.
operator-Quiet : Quiet operator
operator-Quiet = record {
  update_writes = λ cb stored w. ground arith;
  last_finalizer = λ cb stored w. ground arith;
  status_writes = λ cb stored w. ground arith;
  create_elsewhere = λ name n exp w. refl;
  destroy_elsewhere = λ name n exp old w. refl;
}

abbrev blade : ClusterPhase → List ExperimentSpec → List ExperimentStatus → ChaosBlade
blade phase exps sts = record {
  name = "cpu-load";
  finalizers = chaosblade_finalizer ∷ [];
  deletion_timestamp = none;
  annotations = [];
  spec = spec_of exps;
  status = record { phase = phase; exp_statuses = sts };
}

abbrev marked : ChaosBlade → ChaosBlade
marked cb = record cb { deletion_timestamp = some 7 }

abbrev both : List ExperimentSpec
both = node_exp ∷ pod_exp ∷ []

abbrev old_statuses : List ExperimentStatus
old_statuses = zero_status ∷ zero_status ∷ []

remove_once_example : remove ("a" ∷ "b" ∷ "c" ∷ []) "b" ≡ returns ("a" ∷ "c" ∷ [])
unfolding contains
remove_once_example = remove_once "b" ("a" ∷ []) ("c" ∷ []) refl refl

abbrev fresh : ChaosBlade
fresh = record (blade initial both []) { finalizers = [] }

reconcile_creates_example :
    reconcile operator "cpu-load" (some (blade initialized both []))
    ≡ (returns forget, some (blade running both (answer node_exp ∷ answer pod_exp ∷ [])))
unfolding create_each any_success
reconcile_creates_example =
    reconcile_creates operator (some (blade initialized both [])) (blade initialized both []) refl
      (λ e. cc) refl (inl refl)

reconcile_finalizes_example :
    reconcile operator "cpu-load" (some (marked (blade running both old_statuses))) ≡ (
      returns forget,
      some (marked (blade destroying both (answer node_exp ∷ answer pod_exp ∷ []))),
    )
unfolding destroy_each all_success
reconcile_finalizes_example =
    reconcile_finalizes operator (some (marked (blade running both old_statuses)))
      (marked (blade running both old_statuses)) refl (λ e. cc) (inr refl) (λ e. cc) refl

abbrev annotated : List ExperimentStatus → ChaosBlade
annotated sts = record (blade running both sts) { annotations = ("preSpec", "one") ∷ [] }

reconcile_updates_example :
    reconcile operator "cpu-load" (some (annotated (zero_status ∷ [])))
    ≡ (returns forget, some (with_status (annotated []) updating (answer pod_exp ∷ [])))
unfolding destroy_each all_success
reconcile_updates_example =
    reconcile_updates operator (some (annotated (zero_status ∷ []))) (annotated (zero_status ∷ []))
      refl (λ e. cc) refl (inl refl) refl refl (omega arith)

reconcile_update_panics_example :
    (reconcile operator "cpu-load" (some (annotated old_statuses))).0 ≡ panics
reconcile_update_panics_example =
    reconcile_update_panics operator (some (annotated old_statuses)) (annotated old_statuses) refl
      (λ e. cc) refl (inl refl) refl refl (omega arith)

reconcile-Effects_example :
    Effects operator initialized
      (some (blade initialized both []))
      (reconcile operator "cpu-load" (some (blade initialized both []))).1
reconcile-Effects_example =
    reconcile-Effects operator "cpu-load" (some (blade initialized both []))
      (blade initialized both []) refl

creation_completes_example :
    step operator "cpu-load" (step operator "cpu-load" (step operator "cpu-load" (some fresh)))
    ≡ some (blade running both (answer node_exp ∷ answer pod_exp ∷ []))
unfolding contains create_each any_success
creation_completes_example =
    creation_completes operator operator-Quiet fresh (some fresh) refl (λ e. cc) refl refl refl

deletion_completes_example :
    step operator "cpu-load"
      (step operator "cpu-load" (some (marked (blade running (pod_exp ∷ []) (zero_status ∷ [])))))
    ≡ none
unfolding destroy_each all_success
deletion_completes_example =
    deletion_completes operator operator-Quiet
      (marked (blade running (pod_exp ∷ []) (zero_status ∷ [])))
      (some (marked (blade running (pod_exp ∷ []) (zero_status ∷ [])))) refl (λ e. cc) refl
      (λ e. cc) refl refl refl

failed_destroy_retains_example :
    step operator "cpu-load" (some (marked (blade running both old_statuses)))
    ≡ some (marked (blade destroying both (answer node_exp ∷ answer pod_exp ∷ [])))
unfolding destroy_each all_success
failed_destroy_retains_example =
    failed_destroy_retains operator operator-Quiet (marked (blade running both old_statuses))
      (some (marked (blade running both old_statuses))) refl (λ e. cc) refl (λ e. cc) refl refl
