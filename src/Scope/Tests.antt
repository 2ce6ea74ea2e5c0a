-- ===== src/Scope/Tests.antt =====
-- Experiments on a small cluster, and the theorems there.
use chaosblade_operator.Base.{ℕ, ◌+◌, String, ◌≡◌, ◌≢◌, refl, true, List, [], ◌∷◌, arith, index, ℤ}
use chaosblade_operator.Api.{
  FlagSpec, ExperimentSpec, Response, response_success, return_success,
  create_success_experiment_status, response_fail, parameter_invalid_k8s_pod_query, returns,
}
use chaosblade_operator.Kube.{Pod, Node}
use chaosblade_operator.Model.Flags.{Flags, check_flags, extract_exp_model_from_experiment_spec}
use chaosblade_operator.Model.Count.{Float64}
use chaosblade_operator.Model.Identifier.{ContainerObjectMeta, IsPlain}
use chaosblade_operator.Model.Select.{Groups, Selection, filter_nodes_by_other_flags}
use chaosblade_operator.Scope.Defs.{Action, exec, create_nodes, get_matched_pod_resources}
use chaosblade_operator.Scope.Restored.{grouped_creation_empty}

abbrev meta : ContainerObjectMeta
meta = record {
  id = "e1";
  container_runtime = "docker";
  container_id = "0123";
  container_name = "app";
  pod_name = "web";
  node_name = "n1";
  namespace = "default";
}

meta-IsPlain : IsPlain meta
meta-IsPlain = record {
  namespace_lacks = ground arith;
  node_lacks = ground arith;
  pod_lacks = ground arith;
  name_lacks = ground arith;
  id_lacks = ground arith;
  name_gap = λ e. cc;
  id_gap = λ e. cc;
}

-- An action that counts its calls.
abbrev load : Action ℕ
load = record {
  name = "load";
  aliases = "l" ∷ [];
  programs = [];
  exec = λ id cs model w. (return_success (create_success_experiment_status []), w + 1);
}

abbrev specs : List (String × List (Action ℕ))
specs = ("cpu", load ∷ []) ∷ []

abbrev named : List FlagSpec → ExperimentSpec
named flags = record {
  scope = "node";
  target = "cpu";
  action = "load";
  desc = "";
  matchers = record { name = "names"; value = "n1" ∷ [] } ∷ flags;
}

abbrev refusal : Response
refusal = response_fail parameter_invalid_k8s_pod_query ("n1" ∷ [])

abbrev no_pods : Flags → ℕ → (List Pod × Response) × ℕ
no_pods flags w = (([], refusal), w)

abbrev all_pods : List Pod → Flags → ℕ → Selection Pod × ℕ
all_pods pods flags w = (returns (pods, response_success), w)

no_pod_selected :
    get_matched_pod_resources specs no_pods all_pods
      (extract_exp_model_from_experiment_spec (named [])).action_flags
      5
    ≡ (("names", "n1") ∷ ("namespace", "default") ∷ [], (returns ([], refusal), 5))
unfolding get_matched_pod_resources extract_exp_model_from_experiment_spec
no_pod_selected = refl

abbrev zoned : ExperimentSpec
zoned = named (record { name = "evict-group"; value = "zone" ∷ [] } ∷ [])

abbrev nodes : List Node
nodes = record { name = "n1"; labels = ("zone", "z") ∷ [] } ∷ []

abbrev one_node : Flags → ℕ → (List Node × Response) × ℕ
one_node flags w = ((nodes, response_success), w)

abbrev float : Float64
float = record {
  F = ℤ;
  of_int = λ x. x;
  div = λ x y. x;
  mul = λ x y. x;
  round = λ x. x;
  to_int = λ x. x;
}

zoned_checked :
    (check_flags (extract_exp_model_from_experiment_spec zoned).action_flags).success ≡ true
unfolding check_flags extract_exp_model_from_experiment_spec
zoned_checked = refl

zoned_grouped : index (extract_exp_model_from_experiment_spec zoned).action_flags "evict-group" ≢ ""
unfolding extract_exp_model_from_experiment_spec
zoned_grouped = λ e. cc

grouped_creation_empty_example :
    create_nodes specs one_node
      (filter_nodes_by_other_flags float (λ (g : Groups Node). g))
      "b"
      zoned
      5
    ≡ (returns (return_success (create_success_experiment_status [])), 6)
unfolding exec extract_exp_model_from_experiment_spec
grouped_creation_empty_example =
    grouped_creation_empty specs one_node float (λ g. g) "b" zoned 5 5 nodes response_success refl
      zoned_checked zoned_grouped refl refl
