-- ===== src/Scope/Defs.antt =====
-- The controllers of the pod and the node scope, GetExpActionModelSpec of exec/model/model.go and
-- GetOneAvailableContainerIdFromPod of exec/model/filter.go. The query for pods and nodes and the
-- executors of the actions are parameters.
use chaosblade_operator.Base.{
  String, ◌⧺◌, ◌==◌, Bool, true, false, ◌||◌, Option, none, some, List, [], ◌∷◌, if◌then◌else◌,
  index, assign,
}
use chaosblade_operator.Api.{
  ExperimentSpec, ResourceStatus, ExperimentStatus, Response, formatted, handler_exec_not_found,
  container_in_context_not_found, response_fail_with_result, return_success,
  create_fail_experiment_status, create_success_experiment_status, Outcome, returns, panics,
}
use chaosblade_operator.Kube.{ContainerStatus, Pod, Node}
use chaosblade_operator.Model.Flags.{
  Flags, ExpModel, extract_exp_model_from_experiment_spec, check_pod_flags, check_flags,
  resource_namespace_flag,
}
use chaosblade_operator.Model.Identifier.{ContainerObjectMeta, parse_identifier}
use chaosblade_operator.Model.Select.{Selection}
use chaosblade_operator.Containers.Defs.{truncate_container_object_meta_uid, short_id}

-- An action of a target, with its executor, which is given the matched containers.
pub record Action (W : Type 0) : Type 0 where
  pub name : String
  pub aliases : List String
  pub programs : List String
  pub exec : String → List ContainerObjectMeta → ExpModel → W → Response × W

unfoldable pub is_alias : List String → String → Bool
is_alias [] name = false
is_alias (a ∷ aliases) name = if a == name then true else is_alias aliases name

-- The loop over the resource statuses of Destroy: the containers of those that succeeded.
unfoldable pub matched_of : List ResourceStatus → List ContainerObjectMeta
unfolding parse_identifier
matched_of [] = []
matched_of (s ∷ ss) =
    let others = matched_of ss in
    if s.success then record (parse_identifier s.identifier) { id = s.id } ∷ others else others

-- GetOneAvailableContainerIdFromPod: the name and the runtime's id of the first running container.
unfoldable pub one_available : List ContainerStatus → Option ContainerStatus
one_available [] = none
one_available (cs ∷ css) = if cs.running then some cs else one_available css

abbrev pub found_in : Pod → String → String × String → ContainerObjectMeta
found_in pod name (runtime, id) = record {
  id = "";
  container_runtime = runtime;
  container_id = id;
  container_name = name;
  pod_name = pod.name;
  node_name = pod.node_name;
  namespace = pod.namespace;
}

abbrev prepend :
    ContainerObjectMeta → Outcome (List ContainerObjectMeta) → Outcome (List ContainerObjectMeta)
prepend c panics = panics
prepend c (returns cs) = returns (c ∷ cs)

module _ (docker containerd : String) where
  -- The id of the first running container, cut to twelve characters for docker.
  unfoldable pub cut_id : String → Outcome (String × String)
  unfolding truncate_container_object_meta_uid short_id
  cut_id uid =
      let (runtime, id) = truncate_container_object_meta_uid docker containerd uid in
      if runtime == docker
      then (elim (short_id id) [ panics ↦ panics | returns t ↦ returns (runtime, t) ])
      else returns (runtime, id)

  -- getContainerMatchedList of the pod scope: a pod without a running container is left out.
  unfoldable pub matched_of_pods : List Pod → Outcome (List ContainerObjectMeta)
  unfolding one_available cut_id
  matched_of_pods [] = returns []
  matched_of_pods (pod ∷ pods) =
      let others = matched_of_pods pods in
      elim (one_available pod.container_statuses) [
        | none ↦ others
        | some cs ↦ elim (cut_id cs.container_id) [
          | panics ↦ panics
          | returns p ↦ prepend (found_in pod cs.name p) others
        ]
      ]

-- getContainerMatchedList of the node scope.
unfoldable pub matched_of_nodes : List Node → List ContainerObjectMeta
matched_of_nodes [] = []
matched_of_nodes (n ∷ ns) =
    record {
      id = "";
      container_runtime = "";
      container_id = "";
      container_name = "";
      pod_name = "";
      node_name = n.name;
      namespace = "";
    }
    ∷ matched_of_nodes ns

abbrev pub default_namespace : String
default_namespace = "default"

-- The default that GetMatchedPodResources writes into the flags of the experiment.
unfoldable pub with_namespace : Flags → Flags
unfolding assign
with_namespace given =
    if index given resource_namespace_flag == ""
    then assign given resource_namespace_flag default_namespace
    else given

abbrev pub none_matched : Response
none_matched =
    response_fail_with_result container_in_context_not_found
      (create_fail_experiment_status (formatted container_in_context_not_found []) []) []

module _ {W : Type 0} where
  unfoldable pub find_action : List (Action W) → String → Option (Action W)
  unfolding is_alias
  find_action [] name = none
  find_action (a ∷ actions) name =
      if a.name == name || is_alias a.aliases name then some a else find_action actions name

  module _ (specs : List (String × List (Action W))) where
    abbrev actions_of : List (String × List (Action W)) → String → List (Action W)
    actions_of [] target = []
    actions_of ((t, actions) ∷ others) target =
        if t == target then actions else actions_of others target

    unfoldable pub get_exp_action_model_spec : String → String → Option (Action W)
    unfolding find_action
    get_exp_action_model_spec target action_name = find_action (actions_of specs target) action_name

    abbrev pub handler_of : ExpModel → String
    handler_of model = model.target ⧺ ("." ⧺ model.action_name)

    -- Exec; the list is what the context holds.
    unfoldable pub exec : String → List ContainerObjectMeta → ExpModel → W → Response × W
    unfolding get_exp_action_model_spec
    exec experiment_id cs model w =
        elim (get_exp_action_model_spec model.target model.action_name) [
          | none ↦ (
            response_fail_with_result handler_exec_not_found
                (create_fail_experiment_status
                  (formatted handler_exec_not_found (handler_of model ∷ [])) [])
                (handler_of model ∷ []),
            w,
          )
          | some action ↦
              action.exec experiment_id cs (record model { action_programs = action.programs }) w
        ]

    -- Destroy of the pod and of the node scope.
    unfoldable pub destroy : String → ExperimentSpec → ExperimentStatus → W → Response × W
    unfolding exec matched_of extract_exp_model_from_experiment_spec
    destroy experiment_id spec old w = elim old.res_statuses [
      | [] ↦ (return_success (create_success_experiment_status []), w)
      | s ∷ ss ↦
          exec experiment_id (matched_of (s ∷ ss)) (extract_exp_model_from_experiment_spec spec) w
    ]

    -- GetMatchedPodResources, with resourceFunc and filterByOtherFlags.
    module _ (query : Flags → W → (List Pod × Response) × W)
        (filter : List Pod → Flags → W → Selection Pod × W) where
      -- GetMatchedPodResources behind the query.
      abbrev pub filter_queried : Flags → (List Pod × Response) × W → Selection Pod × W
      filter_queried flags ((pods, resp), w) = elim resp.success [
        | false ↦ (returns (pods, resp), w)
        | true ↦ filter pods flags w
      ]

      -- What follows the default of the namespace.
      unfoldable pub check_and_query : Flags → W → Selection Pod × W
      unfolding check_pod_flags
      check_and_query flags w =
          let resp = check_pod_flags flags in
          elim resp.success [
            | false ↦ (returns ([], resp), w)
            | true ↦ filter_queried flags (query flags w)
          ]

      -- The map of flags is the caller's, so it comes back as the function leaves it.
      unfoldable pub get_matched_pod_resources : Flags → W → Flags × (Selection Pod × W)
      unfolding check_and_query with_namespace
      get_matched_pod_resources given w =
          (with_namespace given, check_and_query (with_namespace given) w)

      -- The end of Create of the pod scope.
      abbrev pub run_matched :
          String → ExpModel → Outcome (List ContainerObjectMeta) × W → Outcome Response × W
      run_matched id model (panics, w) = (panics, w)
      run_matched id model (returns [], w) = (returns none_matched, w)
      run_matched id model (returns (c ∷ cs), w) =
          let (resp, w') = exec id (c ∷ cs) model w in (returns resp, w')

      abbrev pub run_selected :
          String → String → String → ExpModel → Selection Pod × W → Outcome Response × W
      run_selected docker containerd id model (panics, w) = (panics, w)
      run_selected docker containerd id model (returns (pods, resp), w) =
          run_matched id model (matched_of_pods docker containerd pods, w)

      -- Create of the pod scope. A response that failed is not returned.
      unfoldable pub create_pods :
          String → String → String → ExperimentSpec → W → Outcome Response × W
      unfolding exec get_matched_pod_resources matched_of_pods
          extract_exp_model_from_experiment_spec
      create_pods docker containerd experiment_id spec w =
          let model = extract_exp_model_from_experiment_spec spec in
          let (flags, selected) = get_matched_pod_resources model.action_flags w in
          run_selected docker containerd experiment_id (record model { action_flags = flags })
            selected

    module _ (query : Flags → W → (List Node × Response) × W)
        (filter : List Node → Flags → Selection Node) where
      -- getMatchedNodeResources behind the query.
      abbrev pub filter_found : Flags → (List Node × Response) × W → Selection Node × W
      filter_found flags ((nodes, resp), w) = elim resp.success [
        | false ↦ (returns ([], resp), w)
        | true ↦ (filter nodes flags, w)
      ]

      unfoldable pub get_matched_node_resources : Flags → W → Selection Node × W
      unfolding check_flags
      get_matched_node_resources flags w =
          let resp = check_flags flags in
          elim resp.success [
            | false ↦ (returns ([], resp), w)
            | true ↦ filter_found flags (query flags w)
          ]

      -- The end of Create of the node scope.
      abbrev pub run_nodes : String → ExpModel → Selection Node × W → Outcome Response × W
      run_nodes id model (panics, w) = (panics, w)
      run_nodes id model (returns (nodes, resp), w) = elim resp.success [
        | false ↦
            (returns (record resp { result = some (create_fail_experiment_status resp.err []) }), w)
        | true ↦ let (answer, w') = exec id (matched_of_nodes nodes) model w in (returns answer, w')
      ]

      -- Create of the node scope.
      unfoldable pub create_nodes : String → ExperimentSpec → W → Outcome Response × W
      unfolding exec get_matched_node_resources matched_of_nodes
          extract_exp_model_from_experiment_spec
      create_nodes experiment_id spec w =
          let model = extract_exp_model_from_experiment_spec spec in
          run_nodes experiment_id model (get_matched_node_resources model.action_flags w)
