-- ===== src/Commands/Tests.antt =====
-- A cluster with a pod of the tool on one node, and the theorems there.
use chaosblade_operator.Base.{
  ℕ, ◌+◌, String, ◌≡◌, ◌≢◌, arith, refl, Bool, none, List, true, false, some, [], ◌∷◌, map, index,
}
use chaosblade_operator.Api.{Response, response_success, panics}
use chaosblade_operator.Version.{check_version_have_cri_command}
use chaosblade_operator.Commands.Identifiers.{ReadStatuses, remove_key, generate_docker}
use chaosblade_operator.Commands.Targets.{
  without_uid, by_runtime, generate_nsexec, nsexec_command, get_experiment_identifiers,
}
use chaosblade_operator.Commands.Generated.{
  get_experiment_identifiers-panics_iff, generate_docker_skips,
}
use chaosblade_operator.Model.Flags.{ExpModel}
use chaosblade_operator.Model.Identifier.{ContainerObjectMeta}
use chaosblade_operator.Commands.Defs.{
  DaemonClient, PodNames, refresh_names, names_of, generate_destroy_node_commands,
  destroy_node_command, get_daemonset_pod_name, generate,
}
use chaosblade_operator.Commands.Daemons.{metas, commands, generate_complete}

abbrev cluster : DaemonClient ℕ
cluster = record { list = λ w. (some (("n1", "tool-1") ∷ []), w + 1); get = λ name w. (true, w) }

abbrev meta : ContainerObjectMeta
meta = record {
  id = "e1";
  container_runtime = "";
  container_id = "";
  container_name = "";
  pod_name = "";
  node_name = "n1";
  namespace = "";
}

n2_absent : index (names_of (("n1", "tool-1") ∷ []) []) "n2" ≡ ""
unfolding names_of
n2_absent = refl

generated :
    (generate cluster (destroy_node_command "blade destroy") (meta ∷ []) [] [] 5).0.0.0 ≡ true
unfolding generate get_daemonset_pod_name
generated = refl

generate_complete_example :
    (metas (generate cluster (destroy_node_command "blade destroy") (meta ∷ []) [] [] 5).0.0.1
      ≡ meta ∷ [])
    × (commands (generate cluster (destroy_node_command "blade destroy") (meta ∷ []) [] [] 5).0.0.1
        ≡ map (destroy_node_command "blade destroy") (meta ∷ []))
generate_complete_example =
    generate_complete cluster (destroy_node_command "blade destroy") (meta ∷ []) [] 5 generated

abbrev load : ExpModel
load = record {
  target = "cpu";
  scope = "node";
  action_name = "load";
  action_flags = ("chaosblade-path", "/tmp/") ∷ [];
  action_programs = [];
  action_process_hang = false;
}

-- The text of a whole command.
destroy_text :
    commands
      (generate_destroy_node_commands cluster "/opt/chaosblade" load "--percent 60"
        (meta ∷ [])
        []
        5).0.0.1
    ≡ "/tmp/chaosblade/blade destroy cpu load --percent 60 --uid e1" ∷ []
unfolding generate_destroy_node_commands get_daemonset_pod_name
destroy_text = refl

abbrev network : ExpModel
network = record {
  target = "network";
  scope = "pod";
  action_name = "loss";
  action_flags = ("use-sidecar-container-network", "true") ∷ [];
  action_programs = [];
  action_process_hang = false;
}

abbrev unread : ReadStatuses ℕ
unread namespace pod w = (none, w)

abbrev undeployed : ExpModel → ContainerObjectMeta → Bool → ℕ → Response × ℕ
undeployed model c override w = (response_success, w)

abbrev no_containers : List ContainerObjectMeta
no_containers = []

-- An old version, so the docker command is used, and no container is left to destroy.
nothing_left :
    (network.scope ≢ "node")
    × (by_runtime (without_uid network) ≡ true)
    × (check_version_have_cri_command "1.4.0" ≡ false)
    × (no_containers ≡ [])
unfolding by_runtime check_version_have_cri_command remove_key
nothing_left = (λ e. cc, refl, refl, refl)

get_experiment_identifiers-panics_iff_example :
    get_experiment_identifiers "docker" "containerd" cluster "/opt/chaosblade" "repo" "1.4.0"
      "override" "1.4.0" undeployed unread
      (λ m. "")
      network
      true
      (some no_containers)
      []
      5
    ≡ panics
get_experiment_identifiers-panics_iff_example =
    (get_experiment_identifiers-panics_iff "docker" "containerd" cluster "/opt/chaosblade" "repo"
        "1.4.0" "override" "1.4.0" undeployed unread (λ m. "") network true no_containers [] 5).1
      nothing_left

nsexec_generated :
    (generate_nsexec "docker" "containerd" cluster
      (nsexec_command "docker" "containerd" network false "blade create cri network loss")
      (meta ∷ [])
      []
      []
      5).0.0.0
    ≡ true
unfolding generate_nsexec nsexec_command get_daemonset_pod_name
nsexec_generated = refl

placed :
    (node : String) (names : PodNames) (w : ℕ)
    → (get_daemonset_pod_name cluster node names w).0.0 ≢ none
unfolding get_daemonset_pod_name refresh_names
placed node names w = ground arith

generate_docker_skips_example :
    (generate_docker "docker" "containerd" cluster unread true "blade destroy docker"
      (meta ∷ [])
      []
      []
      5).0.0
    ≡ (true, [])
generate_docker_skips_example =
    generate_docker_skips "docker" "containerd" cluster unread "blade destroy docker"
      (λ namespace pod w. refl) placed (meta ∷ []) [] [] 5
