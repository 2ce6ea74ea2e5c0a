-- ===== src/Commands/Defs.antt =====
-- The lookup of the tool's pod on a node, with its cache, and the generation of the commands that are
-- run in these pods. The Kubernetes client is a parameter over a state `W`.
use chaosblade_operator.Base.{
  String, ◌⧺◌, ◌==◌, Bool, true, false, Option, none, some, List, [], ◌∷◌, ◌++◌, if◌then◌else◌,
  index, assign, path_join,
}
use chaosblade_operator.Api.{Message, no_message, Code}
use chaosblade_operator.Model.Flags.{ExpModel}
use chaosblade_operator.Model.Identifier.{ContainerObjectMeta}

-- The pods of the daemonset, each with its node, or nothing where the query fails; and whether the
-- pod of a name can be read.
pub record DaemonClient (W : Type 0) : Type 0 where
  pub list : W → Option (List (String × String)) × W
  pub get : String → W → Bool × W

-- chaosblade.DaemonsetPodNames: from nodes to pods.
abbrev pub PodNames : Type 0
PodNames = List (String × String)

unfoldable pub names_of : List (String × String) → PodNames → PodNames
unfolding assign
names_of [] names = names
names_of ((node, pod) ∷ pods) names = names_of pods (assign names node pod)

-- An identifier with the pod of the tool that runs its command.
pub record ExperimentIdentifierInPod : Type 0 where
  pub meta : ContainerObjectMeta
  pub command : String
  pub error : Message
  pub code : Option Code
  pub chaosblade_pod_name : String

abbrev chaosblade_path_flag : String
chaosblade_path_flag = "chaosblade-path"

-- getTargetChaosBladePath and getTargetChaosBladeBin; the first argument is OperatorChaosBladePath.
unfoldable pub get_target_chaosblade_path : String → ExpModel → String
unfolding path_join
get_target_chaosblade_path operator_path model =
    let path = index model.action_flags chaosblade_path_flag in
    if path == "" then operator_path else path_join path "chaosblade"

unfoldable pub get_target_chaosblade_bin : String → ExpModel → String
unfolding get_target_chaosblade_path
get_target_chaosblade_bin operator_path model =
    path_join (get_target_chaosblade_path operator_path model) "blade"

abbrev pub spaced : List String → String
spaced [] = ""
spaced (a ∷ []) = a
spaced (a ∷ b ∷ rest) = a ⧺ (" " ⧺ spaced (b ∷ rest))

-- The command of one container: what is added to the common part.
unfoldable pub create_node_command : String → ContainerObjectMeta → String
create_node_command command c = command

unfoldable pub destroy_node_command : String → ContainerObjectMeta → String
destroy_node_command command c =
    if c.id == "" then command else spaced (command ∷ "--uid" ∷ c.id ∷ [])

unfoldable pub create_docker_command : String → ContainerObjectMeta → String
create_docker_command command c = spaced (command ∷ "--container-id" ∷ c.container_id ∷ [])

unfoldable pub create_cri_command : String → ContainerObjectMeta → String
create_cri_command command c =
    spaced (
      command ∷ "--container-id" ∷ c.container_id ∷ "--container-runtime" ∷ c.container_runtime
      ∷ [])

unfoldable pub destroy_cri_command : String → ContainerObjectMeta → String
unfolding destroy_node_command
destroy_cri_command command c = spaced (
    destroy_node_command command c
    ∷ "--container-name"
    ∷ c.container_name
    ∷ "--container-runtime"
    ∷ c.container_runtime
    ∷ [])

module _ {W : Type 0} (client : DaemonClient W) where
  -- refreshChaosBladeDaemonsetPodNames: whether it succeeded, and the new names.
  unfoldable pub refresh_names : PodNames → W → (Bool × PodNames) × W
  unfolding names_of
  refresh_names names w =
      let (pods, w') = client.list w in
      elim pods [ none ↦ ((false, names), w') | some l ↦ ((true, names_of l []), w') ]

  abbrev looked_up : String → (Bool × PodNames) × W → (Option String × PodNames) × W
  looked_up node ((false, names), w) = ((none, names), w)
  looked_up node ((true, names), w) = ((some (index names node), names), w)

  -- GetChaosBladeDaemonsetPodName; `none` is an error.
  unfoldable pub get_daemonset_pod_name : String → PodNames → W → (Option String × PodNames) × W
  unfolding refresh_names
  get_daemonset_pod_name node names w =
      let pod = index names node in
      if pod == ""
      then looked_up node (refresh_names names w)
      else (let (there, w') = client.get pod w in
          elim there [
            | true ↦ ((some pod, names), w')
            | false ↦ looked_up node (refresh_names names w')
          ])

  -- The loop of the generators over the matched containers. It stops at an error, with what it has.
  unfoldable pub generate :
      (ContainerObjectMeta → String)
      → List ContainerObjectMeta
      → List ExperimentIdentifierInPod
      → PodNames
      → W
      → ((Bool × List ExperimentIdentifierInPod) × PodNames) × W
  generate command_of [] acc names w = (((true, acc), names), w)
  generate command_of (c ∷ cs) acc names w =
      let ((pod, names'), w') = get_daemonset_pod_name c.node_name names w in
      elim pod [
        | none ↦ (((false, acc), names'), w')
        | some p ↦
            let one : ExperimentIdentifierInPod = record {
              meta = c;
              command = command_of c;
              error = no_message;
              code = none;
              chaosblade_pod_name = p;
            } in
            generate command_of cs (acc ++ one ∷ []) names' w'
      ]

  module _ (operator_path : String) (model : ExpModel) (matchers : String) where
    abbrev pub common : List String → String
    common words = spaced (
        get_target_chaosblade_bin operator_path model ∷ words
        ++ model.target ∷ model.action_name ∷ matchers ∷ [])

    abbrev pub Generated : Type 0
    Generated =
        List ContainerObjectMeta
        → PodNames
        → W
        → ((Bool × List ExperimentIdentifierInPod) × PodNames) × W

    unfoldable pub generate_create_node_commands : Generated
    unfolding generate create_node_command get_target_chaosblade_bin
    generate_create_node_commands cs = generate (create_node_command (common ("create" ∷ []))) cs []

    unfoldable pub generate_destroy_node_commands : Generated
    unfolding generate destroy_node_command get_target_chaosblade_bin
    generate_destroy_node_commands cs =
        generate (destroy_node_command (common ("destroy" ∷ []))) cs []

    unfoldable pub generate_create_docker_commands : Generated
    unfolding generate create_docker_command get_target_chaosblade_bin
    generate_create_docker_commands cs =
        generate (create_docker_command (common ("create" ∷ "docker" ∷ []))) cs []

    unfoldable pub generate_create_cri_commands : Generated
    unfolding generate create_cri_command get_target_chaosblade_bin
    generate_create_cri_commands cs =
        generate (create_cri_command (common ("create" ∷ "cri" ∷ []))) cs []

    unfoldable pub generate_destroy_cri_commands : Generated
    unfolding generate destroy_cri_command get_target_chaosblade_bin
    generate_destroy_cri_commands cs =
        generate (destroy_cri_command (common ("destroy" ∷ "cri" ∷ []))) cs []
