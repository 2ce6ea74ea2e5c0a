-- ===== src/Commands/Identifiers.antt =====
-- getExperimentIdentifiers of exec/model/executor_copy.go with what it calls, and
-- getExperimentIdentifiersWithNsexec of executor_nsexec.go.
use chaosblade_operator.Base.{
  String, ◌==◌, Bool, true, false, Option, none, some, List, [], ◌∷◌, ◌++◌, if◌then◌else◌, index,
  ltb,
}
use chaosblade_operator.Api.{Response, no_message, returns, panics}
use chaosblade_operator.Kube.{ContainerStatus}
use chaosblade_operator.Model.Flags.{Flags, ExpModel}
use chaosblade_operator.Model.Identifier.{ContainerObjectMeta}
use chaosblade_operator.Containers.Defs.{truncate_container_object_meta_uid, short_id, text_length}
use chaosblade_operator.Commands.Defs.{
  DaemonClient, PodNames, ExperimentIdentifierInPod, get_daemonset_pod_name, spaced,
  get_target_chaosblade_bin, destroy_node_command, generate_create_node_commands,
  generate_destroy_node_commands, generate_create_docker_commands, generate_create_cri_commands,
  generate_destroy_cri_commands, common,
}

-- delete(flags, key)
unfoldable pub remove_key : Flags → String → Flags
remove_key [] key = []
remove_key ((k, v) ∷ m) key =
    let rest = remove_key m key in if k == key then rest else (k, v) ∷ rest

-- The generated identifiers, the error-free flag before them, and the names of the tool's pods.
abbrev pub Result : Type 0 → Type 0
Result W = ((Bool × List ExperimentIdentifierInPod) × PodNames) × W

-- Reading the container statuses of a pod by namespace and name; `none` is an error.
abbrev pub ReadStatuses : Type 0 → Type 0
ReadStatuses W = String → String → W → Option (List ContainerStatus) × W

module _ (docker containerd : String) where
  -- The loop over the container statuses of getNewContainerIdByPod. What it panics at is excluded by
  -- the test of the length.
  unfoldable pub id_of : String → List ContainerStatus → Option String
  unfolding truncate_container_object_meta_uid short_id
  id_of name [] = none
  id_of name (cs ∷ css) =
      let others = id_of name css in
      if name == cs.name
      then (let (runtime, id) =
            truncate_container_object_meta_uid docker containerd cs.container_id in
          if ltb 12 (text_length id)
          then (elim (short_id id) [ panics ↦ none | returns t ↦ some t ])
          else none)
      else others

  module _ {W : Type 0} (client : DaemonClient W) (read : ReadStatuses W) where
    -- getNewContainerIdByPod; its callers only log the error.
    unfoldable pub get_new_container_id_by_pod : ContainerObjectMeta → W → Option String × W
    unfolding id_of
    get_new_container_id_by_pod c w =
        let (found, w') = read c.namespace c.pod_name w in
        elim found [ none ↦ (none, w') | some css ↦ (id_of c.container_name css, w') ]

    -- The command of one container of generateDestroyDockerCommands; `none` skips the container.
    unfoldable pub destroy_docker_command :
        Bool → String → ContainerObjectMeta → W → Option String × W
    unfolding destroy_node_command get_new_container_id_by_pod
    destroy_docker_command true command c w =
        let (id, w') = get_new_container_id_by_pod c w in
        elim id [
          | none ↦ (none, w')
          | some i ↦ (some (spaced (command ∷ "--container-id" ∷ i ∷ [])), w')
        ]
    destroy_docker_command false command c w = (
      some (spaced (destroy_node_command command c ∷ "--container-name" ∷ c.container_name ∷ [])),
      w,
    )

    abbrev identifier : ContainerObjectMeta → String → String → ExperimentIdentifierInPod
    identifier c command pod = record {
      meta = c;
      command = command;
      error = no_message;
      code = none;
      chaosblade_pod_name = pod;
    }

    -- The loop of generateDestroyDockerCommands: it stops where the tool's pod is not found.
    unfoldable pub generate_docker :
        Bool
        → String
        → List ContainerObjectMeta
        → List ExperimentIdentifierInPod
        → PodNames
        → W
        → Result W
    unfolding destroy_docker_command
    generate_docker network command [] acc names w = (((true, acc), names), w)
    generate_docker network command (c ∷ cs) acc names w =
        let ((pod, names'), w') = get_daemonset_pod_name client c.node_name names w in
        elim pod [
          | none ↦ (((false, acc), names'), w')
          | some p ↦
              let (generated, w'') = destroy_docker_command network command c w' in
              elim generated [
                | none ↦ generate_docker network command cs acc names' w''
                | some g ↦
                    generate_docker network command cs (acc ++ identifier c g p ∷ []) names' w''
              ]
        ]

    -- A response of deployChaosBlade that failed, in the identifier.
    abbrev pub with_response : ExperimentIdentifierInPod → Response → ExperimentIdentifierInPod
    with_response i r = if r.success then i else record i { error = r.err; code = r.code }

    -- The loops of generateCreateCommands and of generateDestroyCommands, with deployChaosBlade.
    unfoldable pub generate_deployed :
        (ContainerObjectMeta → W → Response × W)
        → (ContainerObjectMeta → String)
        → List ContainerObjectMeta
        → List ExperimentIdentifierInPod
        → W
        → List ExperimentIdentifierInPod × W
    generate_deployed deploy command_of [] acc w = (acc, w)
    generate_deployed deploy command_of (c ∷ cs) acc w =
        let (resp, w') = deploy c w in
        generate_deployed deploy command_of cs
          (acc ++ with_response (identifier c (command_of c) "") resp ∷ []) w'

    -- The operator's path, image and version of the tool, the name of the flag that forces a
    -- deployment (the framework's), and deployChaosBlade.
    module _ (operator_path image_repo image_version override_flag : String)
        (deploy : ExpModel → ContainerObjectMeta → Bool → W → Response × W) (model : ExpModel)
        (matchers : String) where
      abbrev with_image : Bool → String
      with_image network =
          if network
          then spaced
              (matchers ∷ "--image-repo" ∷ image_repo ∷ "--image-version" ∷ image_version ∷ [])
          else matchers

      unfoldable pub generate_destroy_docker_commands :
          Bool → String → List ContainerObjectMeta → PodNames → W → Result W
      unfolding generate_docker get_target_chaosblade_bin
      generate_destroy_docker_commands network with cs =
          generate_docker network
            (common client operator_path model with ("destroy" ∷ "docker" ∷ [])) cs []

      unfoldable pub get_docker_experiment_identifiers :
          Bool → Bool → List ContainerObjectMeta → PodNames → W → Result W
      unfolding generate_destroy_docker_commands generate_create_docker_commands
      get_docker_experiment_identifiers true network cs =
          generate_destroy_docker_commands network (with_image network) cs
      get_docker_experiment_identifiers false network cs =
          generate_create_docker_commands client operator_path model (with_image network) cs

      unfoldable pub get_cri_experiment_identifiers :
          Bool → Bool → List ContainerObjectMeta → PodNames → W → Result W
      unfolding generate_destroy_cri_commands generate_create_cri_commands
      get_cri_experiment_identifiers true network cs =
          generate_destroy_cri_commands client operator_path model (with_image network) cs
      get_cri_experiment_identifiers false network cs =
          generate_create_cri_commands client operator_path model (with_image network) cs

      unfoldable pub get_node_experiment_identifiers :
          Bool → List ContainerObjectMeta → PodNames → W → Result W
      unfolding generate_destroy_node_commands generate_create_node_commands
      get_node_experiment_identifiers true =
          generate_destroy_node_commands client operator_path model matchers
      get_node_experiment_identifiers false =
          generate_create_node_commands client operator_path model matchers

      abbrev undisturbed : PodNames → List ExperimentIdentifierInPod × W → Result W
      undisturbed names (l, w) = (((true, l), names), w)

      unfoldable pub generate_destroy_commands : List ContainerObjectMeta → PodNames → W → Result W
      unfolding generate_deployed destroy_node_command get_target_chaosblade_bin
      generate_destroy_commands cs names w = undisturbed names (
          generate_deployed (λ c. deploy model c false)
            (destroy_node_command (common client operator_path model matchers ("destroy" ∷ []))) cs
            [] w)

      unfoldable pub generate_create_commands : List ContainerObjectMeta → PodNames → W → Result W
      unfolding generate_deployed get_target_chaosblade_bin
      generate_create_commands cs names w =
          let override = index model.action_flags override_flag == "true" in
          undisturbed names (
            generate_deployed (λ c. deploy model c override)
              (λ c. common client operator_path model matchers ("create" ∷ [])) cs [] w)
