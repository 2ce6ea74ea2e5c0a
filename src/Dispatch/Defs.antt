-- ===== src/Dispatch/Defs.antt =====
-- ResourceDispatchedController of exec/controller.go, and CreateDestroyedStatus of
-- exec/model/controller.go.
use chaosblade_operator.Base.{
  String, ◌==◌, true, Option, none, some, List, [], ◌∷◌, map, if◌then◌else◌,
}
use chaosblade_operator.Api.{
  text, ExperimentSpec, ResourceStatus, ExperimentStatus, zero_status, Response, error_state,
  destroyed_state, no_message, create_fail_experiment_status, create_success_experiment_status,
  create_destroyed_experiment_status,
}
use chaosblade_operator.Reconcile.{ExpController}

-- model.ExperimentController. The context carries the experiment id, which is the blade's name.
pub record ExperimentController (W : Type 0) : Type 0 where
  pub name : String
  pub create : String → ExperimentSpec → W → Response × W
  pub destroy : String → ExperimentSpec → ExperimentStatus → W → Response × W

-- The map from scopes to controllers.
abbrev pub Controllers : Type 0 → Type 0
Controllers W = List (String × ExperimentController W)

module _ {W : Type 0} where
  unfoldable pub controller_of : Controllers W → String → Option (ExperimentController W)
  controller_of [] scope = none
  controller_of ((n, c) ∷ cs) scope = if n == scope then some c else controller_of cs scope

  -- e.Controllers[n] = c
  unfoldable pub put : Controllers W → String → ExperimentController W → Controllers W
  put [] n c = (n, c) ∷ []
  put ((m, d) ∷ cs) n c = if m == n then (n, c) ∷ cs else (m, d) ∷ put cs n c

  unfoldable pub register : Controllers W → List (ExperimentController W) → Controllers W
  unfolding put
  register e [] = e
  register e (c ∷ cs) = register (put e c.name c) cs

unfoldable pub create_experiment_status_by_response : Response → ExperimentStatus
create_experiment_status_by_response response = elim response.result [
  | some status ↦ status
  | none ↦
      if response.success
      then create_success_experiment_status []
      else create_fail_experiment_status response.err []
]

abbrev pub destroyed_resource : ResourceStatus → ResourceStatus
destroyed_resource s = record {
  id = s.id;
  state = destroyed_state;
  code = none;
  error = no_message;
  success = true;
  kind = s.kind;
  identifier = s.identifier;
}

unfoldable pub create_destroyed_status : ExperimentStatus → ExperimentStatus
create_destroyed_status old =
    create_destroyed_experiment_status (map destroyed_resource old.res_statuses)

-- The inner loop of `validateAndSetNecessaryFields`, on the loop variable `s`.
unfoldable pub retain_state : ResourceStatus → List ResourceStatus → ResourceStatus
retain_state s [] = s
retain_state s (old ∷ olds) =
    retain_state
      (if s.id == old.id
        then (if s.state == error_state then record s { state = old.state } else s)
        else s)
      olds

-- The outer loop. `s` is a copy of the element, so what the inner loop writes is dropped.
unfoldable pub retain_states : List ResourceStatus → List ResourceStatus → List ResourceStatus
unfolding retain_state
retain_states [] olds = []
retain_states (s ∷ ss) olds = let copy = retain_state s olds in s ∷ retain_states ss olds

unfoldable pub validate_and_set_necessary_fields :
    ExperimentStatus → ExperimentStatus → ExperimentStatus
unfolding retain_states
validate_and_set_necessary_fields status old = record status {
  scope = old.scope;
  target = old.target;
  action = old.action;
  state = if status.state == error_state then old.state else status.state;
  res_statuses = retain_states status.res_statuses old.res_statuses;
}

abbrev pub not_found : String → ExperimentStatus
not_found err = record zero_status { state = "Error"; error = text err }

module _ {W : Type 0} (e : Controllers W) where
  unfoldable pub create : String → ExperimentSpec → W → ExperimentStatus × W
  unfolding controller_of create_experiment_status_by_response
  create blade_name exp w = elim (controller_of e exp.scope) [
    | none ↦ (not_found "can not find the scope controller for creating", w)
    | some c ↦
        let (response, w') = c.create blade_name exp w in
        (
          record (create_experiment_status_by_response response) {
            scope = exp.scope;
            target = exp.target;
            action = exp.action;
          },
          w',
        )
  ]

  abbrev destroy_by :
      ExperimentController W → String → ExperimentSpec → ExperimentStatus → W → ExperimentStatus × W
  destroy_by c blade_name exp old w =
      let (response, w') = c.destroy blade_name exp old w in
      (validate_and_set_necessary_fields (create_experiment_status_by_response response) old, w')

  unfoldable pub destroy : String → ExperimentSpec → ExperimentStatus → W → ExperimentStatus × W
  unfolding controller_of create_experiment_status_by_response validate_and_set_necessary_fields
      create_destroyed_status
  destroy blade_name exp old w = elim (controller_of e exp.scope) [
    | none ↦ (not_found "can not find the scope controller for destroying", w)
    | some c ↦ elim old.res_statuses [
      | [] ↦ (create_destroyed_status old, w)
      | s ∷ ss ↦ destroy_by c blade_name exp old w
    ]
  ]

  -- The executor that the reconciler is given.
  unfoldable pub dispatcher : ExpController W
  unfolding create destroy
  dispatcher = record { create = create; destroy = destroy }

-- NewDispatcherExecutor registers the controllers of the node, the pod and the container scope.
unfoldable pub new_dispatcher_executor :
    {W : Type 0}
    → ExperimentController W
    → ExperimentController W
    → ExperimentController W
    → Controllers W
unfolding register
new_dispatcher_executor node pod container = register [] (node ∷ pod ∷ container ∷ [])
