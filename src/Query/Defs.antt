-- ===== src/Query/Defs.antt =====
-- ParseLabels and MapContains of exec/model/filter.go, and the functions resourceFunc of
-- exec/model/filter_pod.go and exec/node/filter.go. Requirements on labels are the Kubernetes library's,
-- so they are parameters, as are the client and the order in which Go ranges over a map.
use chaosblade_operator.Base.{
  ℕ, String, ◌==◌, Bool, true, false, Option, none, some, List, [], ◌∷◌, ◌++◌, if◌then◌else◌, index,
  split, split_n, comma,
}
use chaosblade_operator.Api.{
  Response, response_success, response_fail, parameter_less, parameter_illegal,
  parameter_invalid_k8s_pod_query, parameter_invalid_k8s_node_query, k8s_exec_failed, Code,
}
use chaosblade_operator.Kube.{Pod, Node}
use chaosblade_operator.Model.Flags.{
  Flags, resource_names_flag, resource_namespace_flag, resource_labels_flag,
}
use chaosblade_operator.Model.Select.{Groups, add_to}

abbrev pub Labels : Type 0
Labels = List (String × String)

abbrev pub equals : ℕ
equals = b'='

-- labels.NewRequirement with the operator In, which refuses illegal keys and values, and Matches.
pub record Requirements : Type 1 where
  pub R : Type 0
  pub new_requirement : String → List String → Option R
  pub matches : R → Labels → Bool

-- What a list query answers: an error or items.
pub data Listed (A : Type 0) : Type 0 where
  items : List A → Listed A
  list_failed : String → Listed A

-- The loop over the labels; a text without the sign of equality is left out.
unfoldable pub collect : List String → Groups String → Groups String
unfolding split_n add_to
collect [] groups = groups
collect (label ∷ labels) groups =
    let skipped = collect labels groups in
    elim (split_n equals 2 label) [
      | [] ↦ skipped
      | key ∷ rest ↦ elim rest [
        | [] ↦ skipped
        | value ∷ more ↦ collect labels (add_to groups key value)
      ]
    ]

module _ (req : Requirements) where
  open req use {R, new_requirement, matches}

  unfoldable pub requirements_of : Groups String → List R
  requirements_of [] = []
  requirements_of ((key, values) ∷ groups) =
      let others = requirements_of groups in
      elim (new_requirement key values) [ none ↦ others | some r ↦ r ∷ others ]

  unfoldable pub parse_labels : (Groups String → Groups String) → String → List R
  unfolding collect requirements_of split
  parse_labels range labels =
      if labels == "" then [] else requirements_of (range (collect (split comma labels) []))

  -- The loop of MapContains.
  unfoldable pub matches_any : List R → Labels → Bool
  matches_any [] labels = false
  matches_any (r ∷ rs) labels = if matches r labels then true else matches_any rs labels

  unfoldable pub map_contains : Labels → List R → Bool
  unfolding matches_any
  map_contains [] rs = false
  map_contains (l ∷ ls) rs = matches_any rs (l ∷ ls)

  -- The test on an object that was read by its name.
  unfoldable pub accepted : List R → Labels → Bool
  unfolding map_contains
  accepted [] labels = true
  accepted (r ∷ rs) labels = map_contains labels (r ∷ rs)

  module _ {W A : Type 0} (labels_of : A → Labels) (get : String → W → Option A × W) where
    -- The list behind the read of one object: it is left out where it cannot be read.
    unfoldable pub grown : List R → List A → Option A → List A
    unfolding accepted
    grown rs acc none = acc
    grown rs acc (some a) = if accepted rs (labels_of a) then acc ++ a ∷ [] else acc

    -- The loop over the names.
    unfoldable pub by_names : List R → List String → List A → W → List A × W
    unfolding grown
    by_names rs [] acc w = (acc, w)
    by_names rs (name ∷ names) acc w =
        let (found, w') = get name w in by_names rs names (grown rs acc found) w'

  -- Pods that are being deleted are left out.
  unfoldable pub not_deleted : List Pod → List Pod
  not_deleted [] = []
  not_deleted (p ∷ ps) =
      let others = not_deleted ps in
      elim p.deletion_timestamp [ some t ↦ others | none ↦ p ∷ others ]

  -- The client: reading by namespace and name, and listing by labels that all have to match.
  pub record Cluster (W : Type 0) : Type 0 where
    pub get_pod : String → String → W → Option Pod × W
    pub list_pods : String → List R → W → Listed Pod × W
    pub get_node : String → W → Option Node × W
    pub list_nodes : List R → W → Listed Node × W

  module _ {W : Type 0} (cluster : Cluster W) (range : Groups String → Groups String) where
    abbrev pub named_pods : String → List Pod × W → (List Pod × Response) × W
    named_pods names ([], w) = (([], response_fail parameter_invalid_k8s_pod_query (names ∷ [])), w)
    named_pods names (p ∷ ps, w) = ((p ∷ ps, response_success), w)

    abbrev pub listed_pods : Listed Pod × W → (List Pod × Response) × W
    listed_pods (list_failed err, w) =
        (([], response_fail k8s_exec_failed ("PodList" ∷ err ∷ [])), w)
    listed_pods (items [], w) =
        (([], response_fail parameter_invalid_k8s_pod_query (resource_labels_flag ∷ [])), w)
    listed_pods (items (p ∷ ps), w) = ((not_deleted (p ∷ ps), response_success), w)

    unfoldable pub labelled_pods : String → String → List R → W → (List Pod × Response) × W
    unfolding not_deleted
    labelled_pods namespace labels [] w = if labels == "" then (([], response_success), w) else (
      (
        [],
        response_fail parameter_less
            (resource_labels_flag ∷ labels ∷ "data format error, example: key=value" ∷ []),
      ),
      w,
    )
    labelled_pods namespace labels (r ∷ rs) w = listed_pods (cluster.list_pods namespace (r ∷ rs) w)

    -- resourceFunc of exec/model/filter_pod.go.
    unfoldable pub query_pods : Flags → W → (List Pod × Response) × W
    unfolding parse_labels by_names labelled_pods split
    query_pods flags w =
        let namespace = index flags resource_namespace_flag in
        let labels = index flags resource_labels_flag in
        let names = index flags resource_names_flag in
        let rs = parse_labels range labels in
        if names == ""
        then labelled_pods namespace labels rs w
        else named_pods names (
            by_names (λ (p : Pod). p.labels) (cluster.get_pod namespace) rs (split comma names) []
              w)

    abbrev found_nodes : Code → List String → List Node × W → (List Node × Response) × W
    found_nodes code flags ([], w) = (([], response_fail code flags), w)
    found_nodes code flags (n ∷ ns, w) = ((n ∷ ns, response_success), w)

    abbrev listed_nodes : String → Listed Node × W → (List Node × Response) × W
    listed_nodes labels (list_failed err, w) =
        (([], response_fail k8s_exec_failed ("ListNode" ∷ err ∷ [])), w)
    listed_nodes labels (items ns, w) =
        found_nodes parameter_invalid_k8s_node_query (labels ∷ []) (ns, w)

    unfoldable pub labelled_nodes : String → List R → W → (List Node × Response) × W
    labelled_nodes labels [] w =
        if labels == ""
        then found_nodes parameter_invalid_k8s_node_query (labels ∷ []) ([], w)
        else (
          (
            [],
            response_fail parameter_illegal (resource_labels_flag ∷ labels ∷ "illegal labels" ∷ []),
          ),
          w,
        )
    labelled_nodes labels (r ∷ rs) w = listed_nodes labels (cluster.list_nodes (r ∷ rs) w)

    -- resourceFunc of exec/node/filter.go.
    unfoldable pub query_nodes : Flags → W → (List Node × Response) × W
    unfolding parse_labels by_names labelled_nodes split
    query_nodes flags w =
        let labels = index flags resource_labels_flag in
        let names = index flags resource_names_flag in
        let rs = parse_labels range labels in
        if names == ""
        then labelled_nodes labels rs w
        else found_nodes parameter_invalid_k8s_node_query (names ∷ [])
            (by_names (λ (n : Node). n.labels) cluster.get_node rs (split comma names) [] w)
