-- ===== src/PodIo/Defs.antt =====
-- exec/pod/fsexp.go: the I/O experiment on pods, which sends its faults to the file system of the pod.
-- The text of an error of strconv.Atoi, and the request in the text of a failed injection, are left out.
use chaosblade_operator.Base.{
  ℕ, ◌-◌, ◌%◌, ◌^◌, String, ◌⧺◌, ◌==◌, Bool, true, false, ◌||◌, ◌⊎◌, Option, none, some, List, [],
  ◌∷◌, ◌++◌, if◌then◌else◌, index, split, comma, ℤ, pos, negsuc, atoi, decimal,
}
use chaosblade_operator.Api.{
  formatted, k8s_exec_failed, pod_not_ready, parameter_illegal, chaosfs_client_failed,
  chaosfs_inject_failed, chaosfs_recover_failed, container_in_context_not_found, ResourceStatus,
  ExperimentStatus, create_fail_resource_status, create_success_resource_status,
  create_destroyed_experiment_status, Response, response_fail, Message, Code,
}
use chaosblade_operator.Model.Flags.{Flags, ExpModel}
use chaosblade_operator.Model.Identifier.{ContainerObjectMeta, get_identifier}
use chaosblade_operator.HookFs.Defs.{InjectMessage}
use chaosblade_operator.HookFs.Client.{Http, inject_fault, revoke}
use chaosblade_operator.Pods.Defs.{
  Client, Pod, Container, ContainerPort, Read, found, not_read, pod_status, summary, no_list,
  is_pod_ready,
}

-- uint32(n) for an int n.
unfoldable pub uint32 : ℤ → ℕ
uint32 (pos n) = n % 2 ^ 32
uint32 (negsuc n) = 2 ^ 32 - 1 - n % 2 ^ 32

-- The number of a flag, 0 where it is missing or empty; `none` where it is no integer.
unfoldable pub number : Flags → String → Option ℤ
unfolding atoi
number flags name = if index flags name == "" then some (pos 0) else atoi (index flags name)

-- What the flags come to: a request, or the name of the flag that is no integer.
pub data Requested : Type 0 where
  request : InjectMessage → Requested
  not_integer : String → Requested

unfoldable pub request_of : Flags → Requested
unfolding number uint32 split
request_of flags = elim (number flags "delay") [
  | none ↦ not_integer "delay"
  | some delay ↦ elim (number flags "percent") [
    | none ↦ not_integer "percent"
    | some percent ↦ elim (number flags "errno") [
      | none ↦ not_integer "errno"
      | some errno ↦ request (record {
        methods = split comma (index flags "method");
        path = index flags "path";
        delay = uint32 delay;
        percent = uint32 percent;
        random = index flags "random" == "true";
        errno = uint32 errno;
      })
    ]
  ]
]

unfoldable pub port_named : String → List ContainerPort → Option ℕ
port_named name [] = none
port_named name (p ∷ ps) =
    let others = port_named name ps in if p.name == name then some p.container_port else others

unfoldable pub get_container_port : String → List Container → Option ℕ
unfolding port_named
get_container_port name [] = none
get_container_port name (c ∷ cs) =
    let others = get_container_port name cs in
    elim (port_named name c.ports) [ some p ↦ some p | none ↦ others ]

-- getChaosfsClient: the address of the client, or no client.
unfoldable pub get_chaosfs_client : Pod → Option String
unfolding get_container_port decimal
get_chaosfs_client pod = elim (get_container_port "fuse-port" pod.containers) [
  | none ↦ none
  | some port ↦ some (pod.pod_ip ⧺ (":" ⧺ decimal port))
]

abbrev no_port : String
no_port = "can not found fuse-server container port "

module _ {W : Type 0} (client : Client W) (http : Http W)
    (marshal : InjectMessage → String ⊎ String) where
  abbrev pub failed : ResourceStatus → Message → Code → W → (ResourceStatus × Bool) × W
  failed s err code w = ((create_fail_resource_status s err (some code), false), w)

  abbrev pub injected : ResourceStatus → Pod → Option String × W → (ResourceStatus × Bool) × W
  injected s pod (none, w) = ((create_success_resource_status s, true), w)
  injected s pod (some err, w) =
      failed s (formatted chaosfs_inject_failed (pod.name ∷ err ∷ [])) chaosfs_inject_failed w

  -- What follows the reading of the flags.
  unfoldable pub send : ResourceStatus → Pod → InjectMessage → W → (ResourceStatus × Bool) × W
  send s pod msg w = elim (get_chaosfs_client pod) [
    | none ↦
        failed s (formatted chaosfs_client_failed (pod.name ∷ no_port ∷ [])) chaosfs_client_failed w
    | some addr ↦ injected s pod (inject_fault http marshal addr msg w)
  ]

  abbrev pub send_requested :
      ResourceStatus → Flags → Pod → Requested → W → (ResourceStatus × Bool) × W
  send_requested s flags pod (not_integer name) w =
      failed s (formatted parameter_illegal (name ∷ index flags name ∷ [])) parameter_illegal w
  send_requested s flags pod (request msg) w = send s pod msg w

  abbrev pub create_read : ResourceStatus → Flags → Read × W → (ResourceStatus × Bool) × W
  create_read s flags (not_read err, w) =
      failed s (formatted k8s_exec_failed ("get" ∷ err ∷ [])) k8s_exec_failed w
  create_read s flags (found pod, w) = elim (is_pod_ready pod) [
    | false ↦ failed s (formatted pod_not_ready []) pod_not_ready w
    | true ↦ send_requested s flags pod (request_of flags) w
  ]

  -- One container of the creation: its status, and whether it succeeded.
  unfoldable pub create_one : Flags → ContainerObjectMeta → W → (ResourceStatus × Bool) × W
  create_one flags c w =
      create_read (pod_status "" (get_identifier c)) flags (client.get c.namespace c.pod_name w)

  unfoldable pub create_loop :
      Flags
      → List ContainerObjectMeta
      → Bool
      → List ResourceStatus
      → W
      → (Bool × List ResourceStatus) × W
  unfolding create_one
  create_loop flags [] success acc w = ((success, acc), w)
  create_loop flags (c ∷ cs) success acc w =
      let ((status, ok), w') = create_one flags c w in
      create_loop flags cs (success || ok) (acc ++ status ∷ []) w'

  abbrev pub revoked : ResourceStatus → Pod → Option String × W → List ResourceStatus × W
  revoked s pod (none, w) = ([], w)
  revoked s pod (some err, w) = (
    create_fail_resource_status s (formatted chaosfs_recover_failed (pod.name ∷ err ∷ []))
          (some chaosfs_recover_failed)
        ∷ [],
    w,
  )

  abbrev pub destroy_read : ResourceStatus → Read × W → List ResourceStatus × W
  destroy_read s (not_read err, w) = ([], w)
  destroy_read s (found pod, w) = elim (is_pod_ready pod) [
    | false ↦ ([], w)
    | true ↦ elim (get_chaosfs_client pod) [
      | none ↦ (
        create_fail_resource_status s (formatted chaosfs_client_failed (pod.name ∷ no_port ∷ []))
              (some chaosfs_client_failed)
            ∷ [],
        w,
      )
      | some addr ↦ revoked s pod (revoke http addr w)
    ]
  ]

  -- One container of the destruction: the status that it appends, if it does.
  unfoldable pub destroy_one : ContainerObjectMeta → W → List ResourceStatus × W
  destroy_one c w =
      destroy_read (pod_status "" (get_identifier c)) (client.get c.namespace c.pod_name w)

  unfoldable pub destroy_loop :
      List ContainerObjectMeta → List ResourceStatus → W → List ResourceStatus × W
  unfolding destroy_one
  destroy_loop [] acc w = (acc, w)
  destroy_loop (c ∷ cs) acc w = let (sts, w') = destroy_one c w in destroy_loop cs (acc ++ sts) w'

  module _ (return_result : ExperimentStatus → Response) where
    abbrev pub with_summary : (Bool × List ResourceStatus) × W → Response × W
    with_summary ((success, sts), w) = (return_result (summary success sts), w)

    -- Without a list in the context the status is among the arguments of the message, so the response
    -- has no result.
    unfoldable pub create : ExpModel → Option (List ContainerObjectMeta) → W → Response × W
    unfolding create_loop summary
    create model none w = (response_fail container_in_context_not_found [], w)
    create model (some cs) w = with_summary (create_loop model.action_flags cs false [] w)

    unfoldable pub destroy : Option (List ContainerObjectMeta) → W → Response × W
    unfolding destroy_loop create_destroyed_experiment_status
    destroy none w = (no_list, w)
    destroy (some cs) w =
        let (sts, w') = destroy_loop cs [] w in
        (return_result (create_destroyed_experiment_status sts), w')
