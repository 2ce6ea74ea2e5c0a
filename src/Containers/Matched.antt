-- ===== src/Containers/Matched.antt =====
-- Which containers are matched by name.
use chaosblade_operator.Base.{
  String, ◌==◌, ◌≡◌, ◌≢◌, inl, inr, refl, sym, ap, ◌∙◌, arith, eq_iff, true, false, none, List, [],
  ◌∷◌, ◌++◌, append_assoc, append-nil, if◌then◌else◌, split, comma, All, Bool-cases,
}
use chaosblade_operator.Api.{response_success, returns, panics}
use chaosblade_operator.Kube.{ContainerStatus, Pod}
use chaosblade_operator.Model.Identifier.{ContainerObjectMeta}
use chaosblade_operator.Containers.Defs.{
  status_error, found, match_loop, scanned, identify, meta_of, match_one, scan, match_statuses,
  match_pod, match_pods, get_matched_container_meta_list, container_names_flag,
}

-- The expected names that are the name of the container, once for each.
abbrev pub chosen : List String → ContainerObjectMeta → List ContainerObjectMeta
chosen [] meta = []
chosen (value ∷ values) meta =
    if value == ""
    then chosen values meta
    else if value == meta.container_name
    then meta ∷ chosen values meta
    else chosen values meta

match_loop-chosen :
    (flag : String) (meta : ContainerObjectMeta) (values : List String)
    (acc : List ContainerObjectMeta)
    → match_loop flag (λ value. value == meta.container_name) meta none values acc
      ≡ found (acc ++ chosen values meta)
unfolding match_loop
match_loop-chosen flag meta [] acc = ap found (sym (append-nil acc))
match_loop-chosen flag meta (value ∷ values) acc = elim (Bool-cases (value == "")) [
  | inl empty ↦ rw (empty, match_loop) (match_loop-chosen flag meta values acc)
  | inr full ↦ elim (Bool-cases (value == meta.container_name)) [
    | inl same ↦
        rw (full, same, match_loop)
          (match_loop-chosen flag meta values (acc ++ meta ∷ [])
            ∙ ap found (append_assoc acc (meta ∷ []) (chosen values meta)))
    | inr other ↦ rw (full, other, match_loop) (match_loop-chosen flag meta values acc)
  ]
]

module _ (docker containerd : String) where
  -- The runtime and the id of a container whose id is long enough.
  abbrev pub identity_of : ContainerStatus → String × String
  identity_of cs = elim (identify docker containerd cs.container_id) [
    | panics ↦ ("", "")
    | returns p ↦ p
  ]

  -- The container runs, has an id, and an id of docker has twelve characters.
  abbrev pub IsHealthy : ContainerStatus → Type 0
  IsHealthy cs =
      (cs.running ≡ true)
      × (cs.container_id ≢ "")
      × (identify docker containerd cs.container_id ≡ returns (identity_of cs))

  abbrev pub named : List String → Pod → List ContainerStatus → List ContainerObjectMeta
  named names pod [] = []
  named names pod (cs ∷ css) =
      chosen names (meta_of docker containerd pod cs.name (identity_of cs)) ++ named names pod css

  abbrev pub named_all : List String → List Pod → List ContainerObjectMeta
  named_all names [] = []
  named_all names (pod ∷ pods) = named names pod pod.container_statuses ++ named_all names pods

  module _ (names index_value : String) (given : names ≢ "") where
    pub match_one-chosen :
        (meta : ContainerObjectMeta) (acc : List ContainerObjectMeta)
        → match_one docker containerd "" names index_value meta none acc
          ≡ found (acc ++ chosen (split comma names) meta)
    unfolding match_one
    match_one-chosen meta acc =
        rw (not_empty, match_one)
          (match_loop-chosen container_names_flag meta (split comma names) acc)
      where
        not_empty : (names == "") ≡ false
        not_empty = ground (arith, eq_iff names "")

    pub healthy_error : (cs : ContainerStatus) → IsHealthy cs → status_error cs none ≡ none
    unfolding status_error
    healthy_error cs (runs, full, known) = ground (arith, eq_iff cs.container_id "")

    scan-named :
        (pod : Pod) (css : List ContainerStatus) (acc : List ContainerObjectMeta)
        → All IsHealthy css
        → scan docker containerd "" names index_value pod css none acc
          ≡ scanned none (acc ++ named (split comma names) pod css)
    unfolding scan
    scan-named pod [] acc h = ap (scanned none) (sym (append-nil acc))
    scan-named pod (cs ∷ css) acc (healthy, rest) =
        let meta = meta_of docker containerd pod cs.name (identity_of cs) in
        rw (healthy.2, scan)
          (rw (healthy_error cs healthy, match_one-chosen meta acc, scan)
            (rw (healthy_error cs healthy) (
              scan-named pod css (acc ++ chosen (split comma names) meta) rest
              ∙ ap (scanned none) (
                  append_assoc acc (chosen (split comma names) meta)
                    (named (split comma names) pod css)))))

    match_statuses-named :
        (pod : Pod) (css : List ContainerStatus) (acc : List ContainerObjectMeta)
        → All IsHealthy css
        → match_statuses docker containerd "" names index_value pod css acc
          ≡ found (acc ++ named (split comma names) pod css)
    unfolding match_statuses
    match_statuses-named pod [] acc h = ap found (sym (append-nil acc))
    match_statuses-named pod (cs ∷ css) acc h =
        rw (scan-named pod (cs ∷ css) acc h, not_empty, match_statuses) refl
      where
        not_empty : (names == "") ≡ false
        not_empty = ground (arith, eq_iff names "")

    match_pods-named :
        (pods : List Pod) (acc : List ContainerObjectMeta)
        → All (λ (pod : Pod). All IsHealthy pod.container_statuses) pods
        → match_pods docker containerd "" names index_value pods acc
          ≡ found (acc ++ named_all (split comma names) pods)
    unfolding match_pods match_pod
    match_pods-named [] acc h = ap found (sym (append-nil acc))
    match_pods-named (pod ∷ pods) acc (healthy, rest) =
        rw (match_statuses-named pod pod.container_statuses acc healthy, match_pods, match_pod)
          (match_pods-named pods (acc ++ named (split comma names) pod pod.container_statuses) rest
            ∙ ap found (
                append_assoc acc (named (split comma names) pod pod.container_statuses)
                  (named_all (split comma names) pods)))

    -- Without ids and with names, and if every container of the pods runs and has an id: the containers
    -- that are taken are those whose name is asked for, in the order of the pods and their containers,
    -- each once for every time its name is asked for. An index is not looked at.
    pub matched_by_name :
        (pods : List Pod)
        → All (λ (pod : Pod). All IsHealthy pod.container_statuses) pods
        → get_matched_container_meta_list docker containerd "" names index_value pods
          ≡ returns (named_all (split comma names) pods, response_success)
    unfolding get_matched_container_meta_list
    matched_by_name pods h = rw (match_pods-named pods [] h, get_matched_container_meta_list) refl
