-- ===== src/Model/Select.antt =====
-- filterByOtherFlags of exec/model/filter_pod.go and of exec/node/filter.go: which of the matched
-- pods or nodes an experiment takes. The order in which Go ranges over a map is a parameter.
use chaosblade_operator.Base.{
  ℕ, String, ◌==◌, Bool, true, false, List, [], ◌∷◌, ◌++◌, length, if◌then◌else◌, index, split,
  comma, ℤ,
}
use chaosblade_operator.Api.{
  Response, response_success, response_fail, Outcome, returns, panics,
  parameter_invalid_k8s_pod_query,
}
use chaosblade_operator.Kube.{Pod, Node}
use chaosblade_operator.Model.Flags.{Flags, resource_group_key_flag}
use chaosblade_operator.Model.Count.{Float64, get_resource_count}
use chaosblade_operator.Model.Shuffle.{slice_to, random_pod_selected}

-- A map from the values of labels to the resources that have them.
abbrev pub Groups {ℓ} : Type ℓ → Type ℓ
Groups A = List (String × List A)

module _ {ℓ} {A : Type ℓ} where
  -- groups[value]
  abbrev pub members_of : Groups A → String → List A
  members_of [] value = []
  members_of ((v, xs) ∷ groups) value = if v == value then xs else members_of groups value

  -- groups[value] = append(groups[value], x)
  unfoldable pub add_to : Groups A → String → A → Groups A
  add_to [] value x = (value, x ∷ []) ∷ []
  add_to ((v, xs) ∷ groups) value x =
      if v == value then (v, xs ++ x ∷ []) ∷ groups else (v, xs) ∷ add_to groups value x

  module _ (labels : A → List (String × String)) where
    unfoldable pub group_one : List String → A → Groups A → Groups A
    unfolding add_to
    group_one [] x groups = groups
    group_one (key ∷ keys) x groups = group_one keys x (add_to groups (index (labels x) key) x)

    unfoldable pub group : List String → List A → Groups A → Groups A
    unfolding group_one
    group keys [] groups = groups
    group keys (x ∷ xs) groups = group keys xs (group_one keys x groups)

-- The two results of filterByOtherFlags, where it does not panic.
abbrev pub Selection {ℓ} : Type ℓ → Type ℓ
Selection A = Outcome (List A × Response)

abbrev pub with_response {ℓ} : {A : Type ℓ} → Response → Outcome (List A) → Selection A
with_response resp panics = panics
with_response resp (returns xs) = returns (xs, resp)

module _ (float : Float64) {W : Type 0} (intn : ℕ → W → ℕ × W) where
  -- The count of the resources that are asked for, at random or from the front.
  unfoldable pub pick : Bool → List Pod → ℤ → W → Outcome (List Pod) × W
  unfolding random_pod_selected slice_to
  pick true pods count w = random_pod_selected intn pods count w
  pick false pods count w = (slice_to pods count, w)

  -- The loop over the groups.
  unfoldable pub pick_groups :
      Bool → Flags → List Pod → List (String × List Pod) → List Pod → W → Selection Pod × W
  unfolding pick get_resource_count
  pick_groups random flags pods [] [] w = (
    returns ([], response_fail parameter_invalid_k8s_pod_query (resource_group_key_flag ∷ [])),
    w,
  )
  pick_groups random flags pods [] (x ∷ xs) w = (returns (x ∷ xs, response_success), w)
  pick_groups random flags pods ((value, members) ∷ groups) result w =
      let (count, resp) = get_resource_count float (length members) flags in
      elim resp.success [
        | false ↦ (with_response resp (slice_to pods count), w)
        | true ↦
            let (picked, w') = pick random members count w in
            elim picked [
              | panics ↦ (panics, w')
              | returns ys ↦ pick_groups random flags pods groups (result ++ ys) w'
            ]
      ]

  module _ (range : Groups Pod → Groups Pod) where
    unfoldable pub filter_by_other_flags : List Pod → Flags → W → Selection Pod × W
    unfolding group pick_groups get_resource_count split
    filter_by_other_flags pods flags w =
        let random = index flags "random" == "true" in
        let group_key = index flags resource_group_key_flag in
        if group_key == ""
        then (let (count, resp) = get_resource_count float (length pods) flags in
            elim resp.success [
              | false ↦ (with_response resp (slice_to pods count), w)
              | true ↦
                  let (picked, w') = pick random pods count w in
                  (with_response response_success picked, w')
            ])
        else pick_groups random flags pods
            (range (group (λ (p : Pod). p.labels) (split comma group_key) pods [])) [] w

-- The loops over the nodes and the keys. The list that a node is appended to is not stored back.
unfoldable pub group_node : List String → Node → Groups Node → Groups Node
group_node [] node groups = groups
group_node (key ∷ keys) node groups =
    let node_list = members_of groups (index node.labels key) ++ node ∷ [] in
    group_node keys node groups

unfoldable pub group_nodes : List String → List Node → Groups Node → Groups Node
unfolding group_node
group_nodes keys [] groups = groups
group_nodes keys (node ∷ nodes) groups = group_nodes keys nodes (group_node keys node groups)

module _ (float : Float64) where
  unfoldable pub pick_node_groups : Flags → List Node → Groups Node → List Node → Selection Node
  unfolding get_resource_count slice_to
  pick_node_groups flags nodes [] result = returns (result, response_success)
  pick_node_groups flags nodes ((value, members) ∷ groups) result =
      let (count, resp) = get_resource_count float (length members) flags in
      elim resp.success [
        | false ↦ with_response resp (slice_to nodes count)
        | true ↦ elim (slice_to members count) [
          | panics ↦ panics
          | returns ys ↦ pick_node_groups flags nodes groups (result ++ ys)
        ]
      ]

  unfoldable pub filter_nodes_by_other_flags :
      (Groups Node → Groups Node) → List Node → Flags → Selection Node
  unfolding get_resource_count slice_to group_nodes pick_node_groups split
  filter_nodes_by_other_flags range nodes flags =
      let group_key = index flags resource_group_key_flag in
      if group_key == ""
      then (let (count, resp) = get_resource_count float (length nodes) flags in
          with_response resp (slice_to nodes count))
      else pick_node_groups flags nodes (range (group_nodes (split comma group_key) nodes [])) []
