-- ===== src/Api.antt =====
-- The custom resource of the operator: pkg/apis/chaosblade/v1alpha1/types.go, with the fields of
-- the metadata that the operator reads, and the response record of the experiment framework.
-- A nil slice and an empty one are one value here; a nil string pointer is `none`.
use chaosblade_operator.Base.{
  ℕ, String, Bool, true, false, String_discrete, Option, none, some, List, [],
}

-- A string type with seven named constants; any other text can be stored in the field too.
pub data ClusterPhase : Type 0 where
  initial initialized running updating destroying destroyed error : ClusterPhase
  other : String → ClusterPhase

pub record FlagSpec : Type 0 where
  pub name : String
  pub value : List String

pub record ExperimentSpec : Type 0 where
  pub scope : String
  pub target : String
  pub action : String
  pub desc : String
  pub matchers : List FlagSpec

pub record ChaosBladeSpec : Type 0 where
  pub experiments : List ExperimentSpec

-- The error codes of the framework (package spec) that the operator names.
pub data Code : Type 0 where
  parameter_less parameter_illegal parameter_invalid parameter_invalid_ns_not_one : Code
  parameter_invalid_k8s_pod_query parameter_invalid_k8s_node_query : Code
  parameter_invalid_blade_path_error deploy_chaos_blade_failed : Code
  k8s_exec_failed handler_exec_not_found get_identifier_failed : Code
  container_in_context_not_found pod_not_ready : Code
  chaosfs_client_failed chaosfs_inject_failed chaosfs_recover_failed : Code

-- An error text. What the framework formats from a code and its arguments stays symbolic.
pub data Message : Type 0 where
  text : String → Message
  formatted : Code → List String → Message

abbrev pub no_message : Message
no_message = text ""

abbrev pub success_state : String
success_state = "Success"

abbrev pub error_state : String
error_state = "Error"

abbrev pub destroyed_state : String
destroyed_state = "Destroyed"

pub record ResourceStatus : Type 0 where
  pub id : String
  pub state : String
  pub code : Option Code
  pub error : Message
  pub success : Bool
  pub kind : String
  pub identifier : String

-- CreateFailResourceStatus and CreateSuccessResourceStatus write through the receiver.
unfoldable pub create_fail_resource_status : ResourceStatus → Message → Option Code → ResourceStatus
create_fail_resource_status s err c = record s {
  state = error_state;
  error = err;
  success = false;
  code = c;
}

unfoldable pub create_success_resource_status : ResourceStatus → ResourceStatus
create_success_resource_status s = record s { state = success_state; success = true }

pub record ExperimentStatus : Type 0 where
  pub scope : String
  pub target : String
  pub action : String
  pub success : Bool
  pub state : String
  pub error : Message
  pub res_statuses : List ResourceStatus

-- The zero value of the struct.
abbrev pub zero_status : ExperimentStatus
zero_status = record {
  scope = "";
  target = "";
  action = "";
  success = false;
  state = "";
  error = no_message;
  res_statuses = [];
}

unfoldable pub create_fail_experiment_status : Message → List ResourceStatus → ExperimentStatus
create_fail_experiment_status err rs = record zero_status {
  success = false;
  state = error_state;
  error = err;
  res_statuses = rs;
}

unfoldable pub create_success_experiment_status : List ResourceStatus → ExperimentStatus
create_success_experiment_status rs = record zero_status {
  success = true;
  state = success_state;
  res_statuses = rs;
}

unfoldable pub create_destroyed_experiment_status : List ResourceStatus → ExperimentStatus
create_destroyed_experiment_status rs = record zero_status {
  success = true;
  state = destroyed_state;
  res_statuses = rs;
}

pub record ChaosBladeStatus : Type 0 where
  pub phase : ClusterPhase
  pub exp_statuses : List ExperimentStatus

pub record ChaosBlade : Type 0 where
  pub name : String
  pub finalizers : List String
  pub deletion_timestamp : Option ℕ
  pub annotations : List (String × String)
  pub spec : ChaosBladeSpec
  pub status : ChaosBladeStatus

-- The fields of spec.Response that the operator reads.
pub record Response : Type 0 where
  pub success : Bool
  pub err : Message
  pub code : Option Code
  pub result : Option ExperimentStatus

-- spec.Success, spec.ResponseFailWithFlags, spec.ResponseFailWithResult and spec.ReturnSuccess, as
-- far as the operator depends on them: the flag, the code with its arguments, and the result.
abbrev pub response_success : Response
response_success = record { success = true; err = no_message; code = none; result = none }

abbrev pub response_fail : Code → List String → Response
response_fail c flags = record {
  success = false;
  err = formatted c flags;
  code = some c;
  result = none;
}

abbrev pub response_fail_with_result : Code → ExperimentStatus → List String → Response
response_fail_with_result c r flags = record {
  success = false;
  err = formatted c flags;
  code = some c;
  result = some r;
}

abbrev pub return_success : ExperimentStatus → Response
return_success r = record { success = true; err = no_message; code = none; result = some r }

-- A Go function that may panic.
pub data Outcome {ℓ} (A : Type ℓ) : Type ℓ where
  returns : A → Outcome A
  panics : Outcome A

-- reflect.DeepEqual on specs and on statuses.
pub Spec-discrete : Discrete ChaosBladeSpec
Spec-discrete = hlevel String_discrete

Bool-discrete : Discrete Bool
Bool-discrete = hlevel

pub Status-discrete : Discrete ChaosBladeStatus
Status-discrete = hlevel (String_discrete, Bool-discrete)
