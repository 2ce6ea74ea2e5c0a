-- ===== src/Scope/Restored.antt =====
-- What a destruction is given back, and what is lost.
use chaosblade_operator.Base.{
  String, ◌≡◌, ◌≢◌, refl, ap, ◌∙◌, true, false, none, some, List, [], ◌∷◌, map, All, index,
}
use chaosblade_operator.Api.{
  ResourceStatus, ExperimentSpec, Response, response_success, success_state, no_message, returns,
  container_in_context_not_found,
}
use chaosblade_operator.Kube.{Pod, Node}
use chaosblade_operator.Model.Flags.{
  Flags, check_flags, resource_group_key_flag, extract_exp_model_from_experiment_spec,
}
use chaosblade_operator.Model.Identifier.{
  ContainerObjectMeta, IsPlain, get_identifier, parse_identifier-get_identifier,
}
use chaosblade_operator.Model.Count.{Float64}
use chaosblade_operator.Model.Select.{Selection, Groups, filter_nodes_by_other_flags}
use chaosblade_operator.Model.Selected.{grouped_nodes_lost}
use chaosblade_operator.Scope.Defs.{
  Action, exec, matched_of_nodes, run_selected, run_nodes, filter_found, matched_of,
  matched_of_pods, create_pods, get_matched_pod_resources, none_matched, create_nodes,
  get_matched_node_resources,
}

-- The status that a creation records for a container that it was injected into.
abbrev pub recorded : String → ContainerObjectMeta → ResourceStatus
recorded kind c = record {
  id = c.id;
  state = success_state;
  code = none;
  error = no_message;
  success = true;
  kind = kind;
  identifier = get_identifier c;
}

-- For containers whose identifiers can be parsed back (`IsPlain`): from the statuses of its
-- successful injections a destruction gets back exactly the containers, with the ids of their
-- experiments, in the same order.
pub matched_of-recorded :
    (kind : String) (cs : List ContainerObjectMeta)
    → All IsPlain cs
    → matched_of (map (recorded kind) cs) ≡ cs
unfolding matched_of
matched_of-recorded kind [] h = refl
matched_of-recorded kind (c ∷ cs) (plain, rest) =
    rw (parse_identifier-get_identifier c plain, matched_of)
      (ap (λ l. c ∷ l) (matched_of-recorded kind cs rest))

module _ {W : Type 0} (specs : List (String × List (Action W)))
    (query : Flags → W → (List Pod × Response) × W)
    (filter : List Pod → Flags → W → Selection Pod × W) where
  -- If the selection of the pods gives no pod then the creation answers with
  -- ContainerInContextNotFound, whatever the reason that the selection gave, and calls no executor.
  pub selection_reason_lost :
      (docker containerd id : String) (spec : ExperimentSpec) (w w' : W) (reason : Response)
      → (get_matched_pod_resources specs query filter
          (extract_exp_model_from_experiment_spec spec).action_flags
          w).1
        ≡ (returns ([], reason), w')
      → (resp : Response) × (create_pods specs query filter docker containerd id spec w
          ≡ (returns resp, w'))
        × (resp.success ≡ false)
        × (resp.code ≡ some container_in_context_not_found)
  unfolding create_pods matched_of_pods
  selection_reason_lost docker containerd id spec w w' reason e =
      let model = extract_exp_model_from_experiment_spec spec in
      (
        none_matched,
        ap
            (run_selected specs query filter docker containerd id (record model {
              action_flags = (get_matched_pod_resources specs query filter model.action_flags w).0;
            }))
            e,
        refl,
        refl,
      )

module _ {W : Type 0} (specs : List (String × List (Action W)))
    (query : Flags → W → (List Node × Response) × W) where
  -- With an "evict-group" key and a query that finds nodes, the creation of a node experiment runs the
  -- executor of the action on no container at all, when the flags that have to be given are given.
  pub grouped_creation_empty :
      (float : Float64) (range : Groups Node → Groups Node) (id : String) (spec : ExperimentSpec)
      (w w' : W) (nodes : List Node) (resp : Response)
      → let flags = (extract_exp_model_from_experiment_spec spec).action_flags in
        range [] ≡ []
        → (check_flags flags).success ≡ true
        → index flags resource_group_key_flag ≢ ""
        → query flags w ≡ ((nodes, resp), w')
        → resp.success ≡ true
        → create_nodes specs query (filter_nodes_by_other_flags float range) id spec w ≡ (
            let (answer, w'') = exec specs id [] (extract_exp_model_from_experiment_spec spec) w' in
            (returns answer, w''))
  unfolding create_nodes get_matched_node_resources matched_of_nodes
  grouped_creation_empty float range id spec w w' nodes resp order ok grouped answer fine =
      let model = extract_exp_model_from_experiment_spec spec in
      let filter = filter_nodes_by_other_flags float range in
      let matched : get_matched_node_resources specs query filter model.action_flags w
          ≡ (returns ([], response_success), w') =
        rw (ok, get_matched_node_resources)
          (ap (filter_found specs query filter model.action_flags) answer
            ∙ rw fine (
                ap (λ found. (found, w'))
                  (grouped_nodes_lost float range nodes model.action_flags order grouped))) in
      ap (run_nodes specs query filter id model) matched
