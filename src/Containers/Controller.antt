-- ===== src/Containers/Controller.antt =====
-- Create and Destroy of exec/container/controller.go, over the selection of the pods and the executors
-- of the actions.
use chaosblade_operator.Base.{
  String, ◌==◌, true, false, ◌&&◌, ◌≡◌, ◌≢◌, refl, ap, ◌∙◌, arith, eq_iff, some, List, [], ◌∷◌,
  if◌then◌else◌, index, join, split, comma, trim_space, All, map,
}
use chaosblade_operator.Api.{
  ExperimentSpec, ExperimentStatus, Response, formatted, parameter_less, parameter_invalid,
  response_fail_with_result, response_success, return_success, create_fail_experiment_status,
  create_success_experiment_status, Outcome, returns, panics,
}
use chaosblade_operator.Kube.{Pod}
use chaosblade_operator.Model.Flags.{Flags, ExpModel, extract_exp_model_from_experiment_spec}
use chaosblade_operator.Model.Identifier.{ContainerObjectMeta, IsPlain}
use chaosblade_operator.Model.Select.{Selection}
use chaosblade_operator.Scope.Defs.{
  Action, exec, get_matched_pod_resources, with_namespace, matched_of,
}
use chaosblade_operator.Scope.Restored.{recorded, matched_of-recorded}
use chaosblade_operator.Containers.Defs.{
  container_ids_flag, container_names_flag, container_index_flag, get_matched_container_meta_list,
}
use chaosblade_operator.Containers.Matched.{IsHealthy, named_all, matched_by_name}

abbrev pub the_flags : String
the_flags = join "|" (container_ids_flag ∷ container_names_flag ∷ container_index_flag ∷ [])

abbrev pub less_parameter : Response
less_parameter =
    response_fail_with_result parameter_less
      (create_fail_experiment_status (formatted parameter_less (the_flags ∷ [])) [])
      (the_flags ∷ [])

abbrev pub no_containers : String → String → String → Response
no_containers ids names number =
    let args =
      the_flags ∷ join "|" (ids ∷ names ∷ number ∷ []) ∷ "cannot find the containers" ∷ [] in
    response_fail_with_result parameter_invalid
      (create_fail_experiment_status (formatted parameter_invalid args) []) args

abbrev with_failure : Response → Response
with_failure resp = record resp { result = some (create_fail_experiment_status resp.err []) }

module _ {W : Type 0} (specs : List (String × List (Action W))) where
  module _ (docker containerd : String) (query : Flags → W → (List Pod × Response) × W)
      (filter : List Pod → Flags → W → Selection Pod × W) (id : String) where
    -- The end of Create, with the containers.
    abbrev pub run_containers :
        String
        → String
        → String
        → ExpModel
        → Outcome (List ContainerObjectMeta × Response)
        → W
        → Outcome Response × W
    run_containers ids names number model panics w = (panics, w)
    run_containers ids names number model (returns (cs, resp)) w = elim resp.success [
      | false ↦ (returns (with_failure resp), w)
      | true ↦ elim cs [
        | [] ↦ (returns (no_containers ids names number), w)
        | c ∷ others ↦ let (answer, w') = exec specs id (c ∷ others) model w in (returns answer, w')
      ]
    ]

    abbrev pub run_pods :
        String → String → String → ExpModel → Selection Pod × W → Outcome Response × W
    run_pods ids names number model (panics, w) = (panics, w)
    run_pods ids names number model (returns (pods, resp), w) = elim resp.success [
      | false ↦ (returns (with_failure resp), w)
      | true ↦
          run_containers ids names number model
            (get_matched_container_meta_list docker containerd ids names number pods) w
    ]

    unfoldable pub create : ExperimentSpec → W → Outcome Response × W
    unfolding extract_exp_model_from_experiment_spec trim_space
    create spec w =
        let model = extract_exp_model_from_experiment_spec spec in
        let ids = trim_space (index model.action_flags container_ids_flag) in
        let names = trim_space (index model.action_flags container_names_flag) in
        let number = trim_space (index model.action_flags container_index_flag) in
        let (flags, selected) = get_matched_pod_resources specs query filter model.action_flags w in
        if ids == "" && (names == "" && number == "")
        then (returns less_parameter, w)
        else run_pods ids names number (record model { action_flags = flags }) selected

  unfoldable pub destroy : String → ExperimentSpec → ExperimentStatus → W → Response × W
  unfolding matched_of extract_exp_model_from_experiment_spec
  destroy id spec old w = elim (matched_of old.res_statuses) [
    | [] ↦ (return_success (create_success_experiment_status old.res_statuses), w)
    | c ∷ cs ↦ exec specs id (c ∷ cs) (extract_exp_model_from_experiment_spec spec) w
  ]

  -- For containers whose identifiers can be parsed back (`IsPlain`): from the statuses of successful
  -- injections into some containers, Destroy runs the executor of the action on exactly these.
  pub destroy-recorded :
      (id kind : String) (spec : ExperimentSpec) (old : ExperimentStatus) (c : ContainerObjectMeta)
      (cs : List ContainerObjectMeta) (w : W)
      → All IsPlain (c ∷ cs)
      → old.res_statuses ≡ map (recorded kind) (c ∷ cs)
      → destroy id spec old w
        ≡ exec specs id (c ∷ cs) (extract_exp_model_from_experiment_spec spec) w
  unfolding destroy
  destroy-recorded id kind spec old c cs w plain e =
      let back : matched_of old.res_statuses ≡ c ∷ cs =
        ap matched_of e ∙ matched_of-recorded kind (c ∷ cs) plain in
      rw (back, destroy) refl

  module _ (docker containerd : String) (query : Flags → W → (List Pod × Response) × W)
      (filter : List Pod → Flags → W → Selection Pod × W) (id : String)
      (spec : ExperimentSpec) where
    abbrev pub model : ExpModel
    model = extract_exp_model_from_experiment_spec spec

    -- The model behind the selection, which has written the default namespace into its flags.
    abbrev pub model_in_namespace : ExpModel
    model_in_namespace = record model { action_flags = with_namespace model.action_flags }

    abbrev pub value : String → String
    value flag = trim_space (index model.action_flags flag)

    by_name :
        (ids names number : String) (pods : List Pod) (resp : Response) (w : W)
        → ids ≡ ""
        → names ≢ ""
        → resp.success ≡ true
        → All (λ (pod : Pod). All (IsHealthy docker containerd) pod.container_statuses) pods
        → run_pods docker containerd query filter id ids names number model_in_namespace
            (returns (pods, resp), w)
          ≡ run_containers docker containerd query filter id ids names number model_in_namespace
              (returns (named_all docker containerd (split comma names) pods, response_success))
              w
    by_name ids names number pods resp w no_ids given ok healthy =
        rw (ok, run_pods)
          (ap
            (λ r.
              run_containers docker containerd query filter id ids names number model_in_namespace r
                w)
            (ap (λ i. get_matched_container_meta_list docker containerd i names number pods) no_ids
              ∙ matched_by_name docker containerd names number given pods healthy))

    named-not_less :
        (ids names number : String)
        → names ≢ ""
        → (ids == "" && (names == "" && number == "")) ≡ false
    named-not_less ids names number given = ground (arith, eq_iff names "")

    -- Without ids and with names, and if the selection gives pods whose containers all run and have ids:
    -- Create runs the executor of the action on the containers whose name is asked for, in the order of
    -- the pods and their containers, with the flags of the experiment in which a missing namespace is
    -- the default one; if there is no such container it refuses, with the three flags.
    pub create-by_name :
        (pods : List Pod) (resp : Response) (w w' : W)
        → value container_ids_flag ≡ ""
        → value container_names_flag ≢ ""
        → (get_matched_pod_resources specs query filter model.action_flags w).1
          ≡ (returns (pods, resp), w')
        → resp.success ≡ true
        → All (λ (pod : Pod). All (IsHealthy docker containerd) pod.container_statuses) pods
        → create docker containerd query filter id spec w
          ≡ elim (named_all docker containerd (split comma (value container_names_flag)) pods) [
            | [] ↦ (
              returns (
                  no_containers
                    (value container_ids_flag)
                    (value container_names_flag)
                    (value container_index_flag)),
              w',
            )
            | c ∷ cs ↦
                let (answer, w'') = exec specs id (c ∷ cs) model_in_namespace w' in
                (returns answer, w'')
          ]
    unfolding create get_matched_pod_resources
    create-by_name pods resp w w' no_ids given selected ok healthy =
        let ids = value container_ids_flag in
        let names = value container_names_flag in
        let number = value container_index_flag in
        rw (named-not_less ids names number given, create)
          (ap (run_pods docker containerd query filter id ids names number model_in_namespace)
              selected
            ∙ by_name ids names number pods resp w' no_ids given ok healthy)
