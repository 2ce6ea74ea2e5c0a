-- ===== src/Predicate/Tests.antt =====
-- Events on a resource with one experiment, and the theorems at those events.
use chaosblade_operator.Base.{
  ◌≡◌, inl, inr, refl, false, true, Option, none, some, List, [], ◌∷◌, String,
}
use chaosblade_operator.Api.{
  ClusterPhase, initialized, running, initial, ChaosBladeSpec, ExperimentSpec, ChaosBlade,
}
use chaosblade_operator.Predicate.{set_pre_spec, update}
use chaosblade_operator.Predicate.Events.{edit_triggers, progress_triggers, update-Edge}
use chaosblade_operator.Reconcile.Machine.{starts}

abbrev exp : ExperimentSpec
exp = record { scope = "pod"; target = "cpu"; action = "load"; desc = ""; matchers = [] }

abbrev marshal : ChaosBladeSpec → Option String
marshal spec = some "json"

abbrev blade : ClusterPhase → List ExperimentSpec → ChaosBlade
blade phase exps = record {
  name = "b";
  finalizers = [];
  deletion_timestamp = none;
  annotations = [];
  spec = record { experiments = exps };
  status = record { phase = phase; exp_statuses = [] };
}

edit_run :
    update marshal (some (blade running [])) (some (blade running (exp ∷ [])))
    ≡ (true, some (set_pre_spec (blade running (exp ∷ [])) "json"))
edit_run = edit_triggers marshal (blade running []) (blade running (exp ∷ [])) (λ e. cc) refl

progress_triggers_example :
    update marshal (some (blade initial [])) (some (blade initialized []))
    ≡ (true, some (blade initialized []))
progress_triggers_example =
    progress_triggers marshal (blade initial []) (blade initialized []) refl
      (inr ((λ e. cc), inr (inl refl)))

update-Edge_example :
    update marshal (some (blade initialized [])) (some (blade running []))
    ≡ (false, some (blade running []))
update-Edge_example =
    update-Edge marshal (blade initialized []) (blade running []) refl (starts (inl refl)) refl
