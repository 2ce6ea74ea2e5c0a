-- ===== src/Predicate.antt =====
-- pkg/controller/chaosblade/predicate.go: which watch events start a reconciliation. A nil object is
-- `none`. json.Marshal of a spec is a parameter. `update` answers with the new object too, since it
-- writes the annotation "preSpec" into it.
pub mod Events
mod Tests
use mathlib.Core.Bool.{decide}
use chaosblade_operator.Base.{
  String, ◌==◌, Bool, true, false, not, ◌&&◌, ◌||◌, Option, none, some, List, [], ◌∷◌,
  if◌then◌else◌,
}
use chaosblade_operator.Api.{
  ClusterPhase, initial, running, destroying, error, ChaosBladeSpec, ChaosBladeStatus, ChaosBlade,
  Spec-discrete, Status-discrete,
}
use chaosblade_operator.Reconcile.{contains, chaosblade_finalizer, is_phase, is_some}

unfoldable pub create : Option ChaosBlade → Bool
unfolding is_phase
create none = false
create (some obj) =
    if is_some obj.deletion_timestamp then false else is_phase obj.status.phase initial

unfoldable pub delete : Option ChaosBlade → Bool
unfolding contains
delete none = false
delete (some obj) = contains obj.finalizers chaosblade_finalizer

unfoldable pub generic : Option ChaosBlade → Bool
generic e = false

unfoldable pub spec_eq : ChaosBladeSpec → ChaosBladeSpec → Bool
spec_eq a b = decide (Spec-discrete a b)

unfoldable pub status_eq : ChaosBladeStatus → ChaosBladeStatus → Bool
status_eq a b = decide (Status-discrete a b)

-- newObj.SetAnnotations(map[string]string{"preSpec": bytes}): all other annotations go.
abbrev pub set_pre_spec : ChaosBlade → String → ChaosBlade
set_pre_spec obj bytes = record obj { annotations = ("preSpec", bytes) ∷ [] }

-- The tests of `Update` behind the one on the spec.
unfoldable pub update_status : ChaosBlade → ChaosBlade → Bool
unfolding is_phase contains status_eq
update_status old new =
    if is_phase new.status.phase initial
    then true
    else if not (is_some old.deletion_timestamp) && is_some new.deletion_timestamp
    then true
    else if is_phase new.status.phase running
        || is_phase new.status.phase error
        || is_phase new.status.phase destroying
    then false
    else if not (is_phase new.status.phase old.status.phase)
    then true
    else if not (status_eq new.status old.status)
    then true
    else if is_some new.deletion_timestamp
    then contains new.finalizers chaosblade_finalizer
    else false

module _ (marshal : ChaosBladeSpec → Option String) where
  unfoldable pub update : Option ChaosBlade → Option ChaosBlade → Bool × Option ChaosBlade
  unfolding update_status spec_eq
  update none new = (false, new)
  update (some old) none = (false, none)
  update (some old) (some new) =
      if not (spec_eq new.spec old.spec)
      then elim (marshal old.spec) [
        | none ↦ (false, some new)
        | some bytes ↦ (true, some (set_pre_spec new bytes))
      ]
      else (update_status old new, some new)
