-- ===== src/Commands/Targets.antt =====
-- getExperimentIdentifiers of exec/model/executor_copy.go and getExperimentIdentifiersWithNsexec of
-- executor_nsexec.go: which commands an experiment comes to.
use chaosblade_operator.Base.{
  String, ◌⧺◌, ◌==◌, Bool, true, false, not, ◌&&◌, ◌||◌, Option, none, some, List, [], ◌∷◌, ◌++◌,
  if◌then◌else◌, index, join,
}
use chaosblade_operator.Api.{Response, no_message, Outcome, returns, panics}
use chaosblade_operator.Model.Flags.{ExpModel}
use chaosblade_operator.Model.Identifier.{ContainerObjectMeta}
use chaosblade_operator.Version.{check_version_have_cri_command}
use chaosblade_operator.Commands.Defs.{
  DaemonClient, PodNames, ExperimentIdentifierInPod, get_daemonset_pod_name, spaced,
  get_target_chaosblade_bin,
}
use chaosblade_operator.Commands.Identifiers.{
  Result, ReadStatuses, remove_key, get_docker_experiment_identifiers,
  get_cri_experiment_identifiers, get_node_experiment_identifiers, generate_destroy_commands,
  generate_create_commands,
}

abbrev pub without_uid : ExpModel → ExpModel
without_uid model = record model { action_flags = remove_key model.action_flags "uid" }

-- Whether the commands of an experiment address containers through their runtime.
unfoldable pub by_runtime : ExpModel → Bool
by_runtime model =
    let network = model.target == "network" in
    let docker_network = index model.action_flags "is-docker-network" == "true" in
    let sidecar = index model.action_flags "use-sidecar-container-network" == "true" in
    model.target == "container" || (network && (docker_network || sidecar))

module _ (docker containerd : String) where
  -- The labels that select the sandbox of a pod; `none` for another runtime.
  unfoldable pub sandbox_labels : ContainerObjectMeta → Option (List String)
  sandbox_labels c =
      let labels =
        ("io.kubernetes.pod.name=" ⧺ c.pod_name)
        ∷ ("io.kubernetes.pod.namespace=" ⧺ c.namespace)
        ∷ [] in
      if c.container_runtime == docker
      then some (labels ++ "io.kubernetes.docker.type=podsandbox" ∷ [])
      else if c.container_runtime == containerd
      then some (labels ++ "io.cri-containerd.kind=sandbox" ∷ [])
      else none

  abbrev added : Bool → List String → List String
  added true words = words
  added false words = []

  -- The command of one container; `none` is the error on the runtime.
  unfoldable pub nsexec_command : ExpModel → Bool → String → ContainerObjectMeta → Option String
  unfolding sandbox_labels
  nsexec_command model destroying command c =
      if model.target == "network" && (destroying && not (model.action_name == "dns"))
      then (elim (sandbox_labels c) [
        | none ↦ none
        | some labels ↦ some (
            spaced (
              command
              ∷ "--container-label-selector"
              ∷ join "," labels
              ∷ "--container-runtime"
              ∷ c.container_runtime
              ∷ []))
      ])
      else some (
          spaced (
            command
              ∷ "--container-id"
              ∷ c.container_id
              ∷ added model.action_process_hang ("--cgroup-root" ∷ "/host-sys/fs/cgroup" ∷ [])
            ++ added (not (c.container_runtime == ""))
                ("--container-runtime" ∷ c.container_runtime ∷ [])
            ++ added (not (c.id == "")) ("--uid" ∷ c.id ∷ [])))

  module _ {W : Type 0} (client : DaemonClient W) where
    abbrev placed : ContainerObjectMeta → String → String → ExperimentIdentifierInPod
    placed c command pod = record {
      meta = c;
      command = command;
      error = no_message;
      code = none;
      chaosblade_pod_name = pod;
    }

    -- The loop of getExperimentIdentifiersWithNsexec.
    unfoldable pub generate_nsexec :
        (ContainerObjectMeta → Option String)
        → List ContainerObjectMeta
        → List ExperimentIdentifierInPod
        → PodNames
        → W
        → Result W
    generate_nsexec command_of [] acc names w = (((true, acc), names), w)
    generate_nsexec command_of (c ∷ cs) acc names w = elim (command_of c) [
      | none ↦ (((false, acc), names), w)
      | some g ↦
          let ((pod, names'), w') = get_daemonset_pod_name client c.node_name names w in
          elim pod [
            | none ↦ (((false, acc), names'), w')
            | some p ↦ generate_nsexec command_of cs (acc ++ placed c g p ∷ []) names' w'
          ]
    ]

    -- Beside those of the generators: spec.ConvertExpMatchersToString and the version of the tool.
    module _ (operator_path image_repo image_version override_flag version : String)
        (deploy : ExpModel → ContainerObjectMeta → Bool → W → Response × W) (read : ReadStatuses W)
        (convert : ExpModel → String) where
      unfoldable pub get_container_experiment_identifiers :
          ExpModel
          → String
          → Bool
          → Bool
          → List ContainerObjectMeta
          → PodNames
          → W
          → Outcome (Result W)
      unfolding get_docker_experiment_identifiers get_cri_experiment_identifiers
          check_version_have_cri_command
      get_container_experiment_identifiers model matchers destroying network cs names w =
          let by_cri =
            get_cri_experiment_identifiers docker containerd client read operator_path image_repo
              image_version override_flag deploy model matchers destroying network cs names w in
          let by_docker =
            get_docker_experiment_identifiers docker containerd client read operator_path image_repo
              image_version override_flag deploy model matchers destroying network cs names w in
          if check_version_have_cri_command version then returns by_cri else (elim cs [
            | [] ↦ panics
            | c ∷ others ↦ returns (if c.container_runtime == containerd then by_cri else by_docker)
          ])

      unfoldable pub get_experiment_identifiers :
          ExpModel → Bool → Option (List ContainerObjectMeta) → PodNames → W → Outcome (Result W)
      unfolding remove_key by_runtime get_container_experiment_identifiers
          get_node_experiment_identifiers generate_destroy_commands generate_create_commands
      get_experiment_identifiers given destroying none names w = returns (((false, []), names), w)
      get_experiment_identifiers given destroying (some cs) names w =
          let model = without_uid given in
          let matchers = convert model in
          if model.scope == "node"
          then returns (
              get_node_experiment_identifiers docker containerd client read operator_path image_repo
                image_version override_flag deploy model matchers destroying cs names w)
          else if by_runtime model
          then get_container_experiment_identifiers model matchers destroying
              (model.target == "network") cs names w
          else if destroying
          then returns (
              generate_destroy_commands docker containerd client read operator_path image_repo
                image_version override_flag deploy model matchers cs names w)
          else returns (
              generate_create_commands docker containerd client read operator_path image_repo
                image_version override_flag deploy model matchers cs names w)

      abbrev handle : Bool → String
      handle destroying = if destroying then "destroy" else "create"

      unfoldable pub get_experiment_identifiers_with_nsexec :
          ExpModel → Bool → Option (List ContainerObjectMeta) → PodNames → W → Result W
      unfolding remove_key generate_nsexec nsexec_command get_node_experiment_identifiers
          get_target_chaosblade_bin
      get_experiment_identifiers_with_nsexec given destroying none names w =
          (((false, []), names), w)
      get_experiment_identifiers_with_nsexec given destroying (some cs) names w =
          let model = without_uid given in
          let matchers = convert model in
          let command = spaced (
            get_target_chaosblade_bin operator_path model
            ∷ handle destroying
            ∷ "cri"
            ∷ model.target
            ∷ model.action_name
            ∷ matchers
            ∷ []) in
          if model.scope == "node"
          then get_node_experiment_identifiers docker containerd client read operator_path
              image_repo image_version override_flag deploy model matchers destroying cs names w
          else generate_nsexec (nsexec_command model destroying command) cs [] names w
