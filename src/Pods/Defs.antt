-- ===== src/Pods/Defs.antt =====
-- delete.go and failexp.go. The Kubernetes client is a parameter over a state `W`; an error is its text.
use chaosblade_operator.Base.{
  ℕ, String, ◌⧺◌, ◌==◌, Bool, true, false, ◌&&◌, ◌||◌, Option, none, some, List, [], ◌∷◌, ◌++◌,
  if◌then◌else◌, assign,
}
use chaosblade_operator.Api.{
  text, formatted, k8s_exec_failed, pod_not_ready, container_in_context_not_found, ResourceStatus,
  ExperimentStatus, create_fail_resource_status, create_success_resource_status,
  create_fail_experiment_status, create_success_experiment_status,
  create_destroyed_experiment_status, Response, response_fail_with_result, destroyed_state,
  no_message,
}
use chaosblade_operator.Model.Identifier.{ContainerObjectMeta, get_identifier}

pub record ContainerPort : Type 0 where
  pub name : String
  pub container_port : ℕ

pub record Container : Type 0 where
  pub name : String
  pub image : String
  pub ports : List ContainerPort

pub record Condition : Type 0 where
  pub kind : String
  pub status : String

pub record Pod : Type 0 where
  pub name : String
  pub namespace : String
  pub deletion_timestamp : Option ℕ
  pub annotations : List (String × String)
  pub containers : List Container
  pub conditions : List Condition
  pub pod_ip : String

-- &v1.Pod{}, which a failed read leaves as it is.
abbrev pub empty_pod : Pod
empty_pod = record {
  name = "";
  namespace = "";
  deletion_timestamp = none;
  annotations = [];
  containers = [];
  conditions = [];
  pod_ip = "";
}

-- A read: the error, if there is one, and the pod.
pub data Read : Type 0 where
  found : Pod → Read
  not_read : String → Read

-- The client: `delete` and `get` take the namespace and the name.
pub record Client (W : Type 0) : Type 0 where
  pub get : String → String → W → Read × W
  pub delete : String → String → W → Option String × W
  pub update : Pod → W → Option String × W

abbrev pub pod_status : String → String → ResourceStatus
pod_status id identifier = record {
  id = id;
  state = "";
  code = none;
  error = no_message;
  success = false;
  kind = "pod";
  identifier = identifier;
}

abbrev pub pod_identifier : ContainerObjectMeta → String
pod_identifier c = c.namespace ⧺ ("/" ⧺ (c.node_name ⧺ ("/" ⧺ c.pod_name)))

-- What both executors make of the statuses they gathered.
unfoldable pub summary : Bool → List ResourceStatus → ExperimentStatus
summary success sts =
    if success
    then create_success_experiment_status sts
    else create_fail_experiment_status (text "see resStatuses for details") sts

abbrev pub no_list : Response
no_list =
    response_fail_with_result container_in_context_not_found
      (create_fail_experiment_status (formatted container_in_context_not_found []) []) []

unfoldable pub has_ready : List Condition → Bool
has_ready [] = false
has_ready (c ∷ cs) = if c.kind == "Ready" && c.status == "True" then true else has_ready cs

unfoldable pub is_pod_ready : Pod → Bool
unfolding has_ready
is_pod_ready pod = elim pod.deletion_timestamp [ some t ↦ false | none ↦ has_ready pod.conditions ]

unfoldable pub is_annotation_exist : List (String × String) → String → Bool
is_annotation_exist [] key = false
is_annotation_exist ((k, v) ∷ m) key = if k == key then true else is_annotation_exist m key

abbrev pub fail_key : String → String
fail_key name = "failPod-" ⧺ name

-- The loop of failPod over the containers: the annotations and the containers it leaves.
unfoldable pub fail_containers :
    List (String × String) → List Container → List (String × String) × List Container
unfolding is_annotation_exist assign
fail_containers annotations [] = (annotations, [])
fail_containers annotations (c ∷ cs) = elim (is_annotation_exist annotations (fail_key c.name)) [
  | true ↦ let (annotations', cs') = fail_containers annotations cs in (annotations', c ∷ cs')
  | false ↦
      let (annotations', cs') = fail_containers (assign annotations (fail_key c.name) c.image) cs in
      (annotations', record c { image = c.image ⧺ "-fault-injection" } ∷ cs')
]

unfoldable pub failed_pod : Pod → Pod
unfolding fail_containers
failed_pod pod =
    let (annotations, containers) = fail_containers pod.annotations pod.containers in
    record pod { annotations = annotations; containers = containers }

module _ {W : Type 0} (client : Client W) where
  abbrev pub deleted_status : ResourceStatus → Option String → ResourceStatus × Bool
  deleted_status s (some err) =
      (create_fail_resource_status s (text err) (some k8s_exec_failed), false)
  deleted_status s none = (create_success_resource_status s, true)

  -- The loop of the creation of "delete".
  unfoldable pub delete_loop :
      List ContainerObjectMeta → Bool → List ResourceStatus → W → (Bool × List ResourceStatus) × W
  unfolding create_fail_resource_status create_success_resource_status
  delete_loop [] success acc w = ((success, acc), w)
  delete_loop (c ∷ cs) success acc w =
      let (err, w') = client.delete c.namespace c.pod_name w in
      let (status, ok) = deleted_status (pod_status "" (pod_identifier c)) err in
      delete_loop cs (success || ok) (acc ++ status ∷ []) w'

  unfoldable pub fail_pod : Pod → W → Option String × W
  unfolding failed_pod
  fail_pod pod w = client.update (failed_pod pod) w

  -- After the read: the status so far and the pod.
  abbrev seen : ResourceStatus → Read → ResourceStatus × Pod
  seen s (found pod) = (s, pod)
  seen s (not_read err) = (
    create_fail_resource_status s (formatted k8s_exec_failed ("get" ∷ err ∷ []))
        (some k8s_exec_failed),
    empty_pod,
  )

  abbrev written : ResourceStatus → Option String → ResourceStatus × Bool
  written s none = (create_success_resource_status s, true)
  written s (some err) = (
    create_fail_resource_status s (formatted k8s_exec_failed ("update" ∷ err ∷ []))
        (some k8s_exec_failed),
    false,
  )

  -- One pod of the creation of "fail": the status and whether it succeeded. After a failed read the
  -- loop goes on with the empty pod, which is not ready.
  unfoldable pub fail_one : ContainerObjectMeta → W → (ResourceStatus × Bool) × W
  unfolding is_pod_ready fail_pod create_fail_resource_status create_success_resource_status
      get_identifier
  fail_one c w =
      let start = pod_status "" (get_identifier c) in
      let (read, w') = client.get c.namespace c.pod_name w in
      let (status, pod) = seen start read in
      elim (is_pod_ready pod) [
        | false ↦ (
          (
            create_fail_resource_status status (formatted pod_not_ready (c.pod_name ∷ []))
                (some pod_not_ready),
            false,
          ),
          w',
        )
        | true ↦ let (err, w'') = fail_pod pod w' in (written status err, w'')
      ]

  unfoldable pub fail_loop :
      List ContainerObjectMeta → Bool → List ResourceStatus → W → (Bool × List ResourceStatus) × W
  unfolding fail_one
  fail_loop [] success acc w = ((success, acc), w)
  fail_loop (c ∷ cs) success acc w =
      let ((status, ok), w') = fail_one c w in fail_loop cs (success || ok) (acc ++ status ∷ []) w'

  -- The loop of the destruction of "fail". No branch appends the status it makes.
  unfoldable pub unfail_loop :
      List ContainerObjectMeta → List ResourceStatus → W → List ResourceStatus × W
  unfail_loop [] acc w = (acc, w)
  unfail_loop (c ∷ cs) acc w =
      let (read, w') = client.get c.namespace c.pod_name w in
      elim read [
        | not_read err ↦ unfail_loop cs acc w'
        | found pod ↦
            let (err, w'') = client.delete pod.namespace pod.name w' in unfail_loop cs acc w''
      ]

  -- The executors; `return_result` is spec.ReturnResultIgnoreCode, and the list is what the context
  -- holds.
  module _ (return_result : ExperimentStatus → Response) where
    abbrev pub with_summary : (Bool × List ResourceStatus) × W → Response × W
    with_summary ((success, sts), w) = (return_result (summary success sts), w)

    unfoldable pub delete_create : Option (List ContainerObjectMeta) → W → Response × W
    unfolding delete_loop summary
    delete_create none w = (no_list, w)
    delete_create (some cs) w = with_summary (delete_loop cs false [] w)

    unfoldable pub destroyed_pods : List ContainerObjectMeta → List ResourceStatus
    unfolding get_identifier
    destroyed_pods [] = []
    destroyed_pods (c ∷ cs) =
        record (pod_status c.id (get_identifier c)) { state = destroyed_state; success = true }
        ∷ destroyed_pods cs

    unfoldable pub delete_destroy : Option (List ContainerObjectMeta) → W → Response × W
    unfolding destroyed_pods create_destroyed_experiment_status
    delete_destroy none w = (no_list, w)
    delete_destroy (some cs) w =
        (return_result (create_destroyed_experiment_status (destroyed_pods cs)), w)

    unfoldable pub fail_create : Option (List ContainerObjectMeta) → W → Response × W
    unfolding fail_loop summary
    fail_create none w = (no_list, w)
    fail_create (some cs) w = with_summary (fail_loop cs false [] w)

    unfoldable pub fail_destroy : Option (List ContainerObjectMeta) → W → Response × W
    unfolding unfail_loop create_destroyed_experiment_status
    fail_destroy none w = (no_list, w)
    fail_destroy (some cs) w =
        let (sts, w') = unfail_loop cs [] w in
        (return_result (create_destroyed_experiment_status sts), w')
