-- ===== src/Containers/Defs.antt =====
-- getMatchedContainerMetaList of exec/container/controller.go, and TruncateContainerObjectMetaUid of
-- exec/model/executor.go. A pod without container statuses has a nil list of them.
use Prim.Native.String.{[] as nil, ◌∷◌ as ◌⊳◌}
use chaosblade_operator.Base.{
  ℕ, zero, suc, ◌-◌, String, ◌⧺◌, ◌==◌, Bool, not, ◌&&◌, Option, none, some, List, [], ◌∷◌, ◌++◌,
  if◌then◌else◌, get_elem?, has_prefix, split, comma, ℤ, pos, negsuc, atoi,
}
use chaosblade_operator.Api.{
  Response, response_success, response_fail, parameter_invalid, parameter_illegal, Outcome, returns,
  panics,
}
use chaosblade_operator.Kube.{ContainerStatus, Pod}
use chaosblade_operator.Model.Identifier.{ContainerObjectMeta}

abbrev pub container_ids_flag : String
container_ids_flag = "container-ids"

abbrev pub container_names_flag : String
container_names_flag = "container-names"

abbrev pub container_index_flag : String
container_index_flag = "container-index"

abbrev pub text_length : String → ℕ
text_length nil = 0
text_length (c ⊳ s) = suc (text_length s)

-- strings.ReplaceAll(s, old, "") for a text that is not empty; the number counts the characters of a
-- match that are still to be left out.
unfoldable pub without : String → String → ℕ → String
unfolding has_prefix
without old nil skip = nil
without old (c ⊳ s) (suc skip) = without old s skip
without old (c ⊳ s) zero =
    let after = without old s (text_length old - 1) in
    let here = without old s 0 in if has_prefix (c ⊳ s) old then after else c ⊳ here

abbrev take_text : ℕ → String → Option String
take_text zero s = some nil
take_text (suc n) nil = none
take_text (suc n) (c ⊳ s) = elim (take_text n s) [ none ↦ none | some t ↦ some (c ⊳ t) ]

-- id[:12]
unfoldable pub short_id : String → Outcome String
short_id id = elim (take_text 12 id) [ none ↦ panics | some t ↦ returns t ]

-- The error on a container's status. It is declared outside the loop over the containers, so what an
-- earlier container set is still there.
unfoldable pub status_error : ContainerStatus → Option String → Option String
status_error cs before =
    let after = if cs.container_id == "" then some "containerId is empty" else before in
    if cs.running then after else elim after [
      | some m ↦ some ("is not running, " ⧺ m)
      | none ↦ some ("is not running, containerId: " ⧺ cs.container_id)
    ]

abbrev pub invalid : String → String → String → String → Response
invalid flag value name err =
    response_fail parameter_invalid (flag ∷ value ∷ ("container: " ⧺ (name ⧺ (" " ⧺ err))) ∷ [])

-- What a loop comes to: it goes on with a list, the function returns early, or it panics.
pub data Found : Type 0 where
  found : List ContainerObjectMeta → Found
  refused : List ContainerObjectMeta → Response → Found
  crashed : Found

-- The loop over the expected ids or names; `test` says whether one of them means this container.
unfoldable pub match_loop :
    String
    → (String → Bool)
    → ContainerObjectMeta
    → Option String
    → List String
    → List ContainerObjectMeta
    → Found
match_loop flag test meta err [] acc = found acc
match_loop flag test meta err (value ∷ values) acc =
    let next = match_loop flag test meta err values (acc ++ meta ∷ []) in
    let same = match_loop flag test meta err values acc in
    if value == ""
    then same
    else if test value
    then (elim err [
      | none ↦ next
      | some e ↦ refused acc (invalid flag value meta.container_name e)
    ])
    else same

-- What the loop over the containers hands on: the error and the list.
pub data Scanned : Type 0 where
  scanned : Option String → List ContainerObjectMeta → Scanned
  stopped : Found → Scanned

-- The flags with the runtimes' names of the framework.
module _ (docker containerd : String) where
  unfoldable pub truncate_container_object_meta_uid : String → String × String
  unfolding without
  truncate_container_object_meta_uid uid =
      if has_prefix uid "containerd://"
      then (containerd, without "containerd://" uid 0)
      else (docker, without "docker://" uid 0)

  -- The runtime and the id of a container whose status has one.
  unfoldable pub identify : String → Outcome (String × String)
  unfolding truncate_container_object_meta_uid short_id
  identify uid =
      if uid == ""
      then returns ("", "")
      else (let (runtime, id) = truncate_container_object_meta_uid uid in
          if runtime == docker
          then (elim (short_id id) [ panics ↦ panics | returns t ↦ returns (runtime, t) ])
          else returns (runtime, id))

  abbrev pub meta_of : Pod → String → String × String → ContainerObjectMeta
  meta_of pod name (runtime, id) = record {
    id = "";
    container_runtime = runtime;
    container_id = id;
    container_name = name;
    pod_name = pod.name;
    node_name = pod.node_name;
    namespace = pod.namespace;
  }

  module _ (ids_value names_value index_value : String) where
    -- One container: by id where ids are given, else by name where names are given.
    unfoldable pub match_one :
        ContainerObjectMeta → Option String → List ContainerObjectMeta → Found
    unfolding match_loop split has_prefix
    match_one meta err acc =
        if not (ids_value == "")
        then match_loop container_ids_flag (λ value. has_prefix value meta.container_id) meta err
            (split comma ids_value) acc
        else if not (names_value == "")
        then match_loop container_names_flag (λ value. value == meta.container_name) meta err
            (split comma names_value) acc
        else found acc

    -- The loop over the containers of a pod.
    unfoldable pub scan :
        Pod → List ContainerStatus → Option String → List ContainerObjectMeta → Scanned
    unfolding match_one
    scan pod [] err acc = scanned err acc
    scan pod (cs ∷ css) err acc = elim (identify cs.container_id) [
      | panics ↦ stopped crashed
      | returns name_id ↦
          let err' = status_error cs err in
          elim (match_one (meta_of pod cs.name name_id) err' acc) [
            | found acc' ↦ scan pod css err' acc'
            | refused l r ↦ stopped (refused l r)
            | crashed ↦ stopped crashed
          ]
    ]

    abbrev by_status : Pod → ContainerStatus → Option String → List ContainerObjectMeta → Found
    by_status pod cs (some e) acc = refused acc (invalid container_index_flag index_value cs.name e)
    by_status pod cs none acc = elim (identify cs.container_id) [
      | panics ↦ crashed
      | returns name_id ↦ found (acc ++ meta_of pod cs.name name_id ∷ [])
    ]

    -- The choice by index; a negative index panics.
    unfoldable pub by_index : Pod → Option ℤ → Option String → List ContainerObjectMeta → Found
    by_index pod none err acc =
        refused acc (response_fail parameter_illegal (container_index_flag ∷ index_value ∷ []))
    by_index pod (some (negsuc i)) err acc = crashed
    by_index pod (some (pos i)) err acc = elim (get_elem? pod.container_statuses i) [
      | none ↦ refused acc (
          response_fail parameter_illegal
            (container_index_flag ∷ index_value ∷ "out of bound" ∷ []))
      | some cs ↦ by_status pod cs (status_error cs err) acc
    ]

    -- One pod, with its container statuses.
    unfoldable pub match_statuses : Pod → List ContainerStatus → List ContainerObjectMeta → Found
    unfolding scan by_index atoi
    match_statuses pod [] acc = found acc
    match_statuses pod (cs ∷ css) acc = elim (scan pod (cs ∷ css) none acc) [
      | stopped result ↦ result
      | scanned err acc' ↦
          if ids_value == "" && names_value == "" && not (index_value == "")
          then by_index pod (atoi index_value) err acc'
          else found acc'
    ]

    unfoldable pub match_pod : Pod → List ContainerObjectMeta → Found
    unfolding match_statuses
    match_pod pod acc = match_statuses pod pod.container_statuses acc

    -- The loop over the pods.
    unfoldable pub match_pods : List Pod → List ContainerObjectMeta → Found
    unfolding match_pod
    match_pods [] acc = found acc
    match_pods (pod ∷ pods) acc = elim (match_pod pod acc) [
      | found acc' ↦ match_pods pods acc'
      | refused l r ↦ refused l r
      | crashed ↦ crashed
    ]

    unfoldable pub get_matched_container_meta_list :
        List Pod → Outcome (List ContainerObjectMeta × Response)
    unfolding match_pods
    get_matched_container_meta_list pods = elim (match_pods pods []) [
      | found l ↦ returns (l, response_success)
      | refused l r ↦ returns (l, r)
      | crashed ↦ panics
    ]
