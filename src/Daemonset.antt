-- ===== src/Daemonset.antt =====
-- pkg/controller/chaosblade/daemonset.go: the daemonset of the tool and its creation, which no other
-- code calls now. The settings of the operator and the Kubernetes client are parameters.
use chaosblade_operator.Base.{
  ℕ, String, ◌⧺◌, ◌≡◌, refl, ◌⊎◌, inl, inr, Bool, true, Option, none, some, List, [], ◌∷◌,
}

-- What the command line sets, and the image that the product's ImageRepoFunc answers.
pub record Settings : Type 0 where
  pub image_repository : String
  pub version : String
  pub pull_policy : String
  pub namespace : String

abbrev pub daemonset_pod_name : String
daemonset_pod_name = "chaosblade-tool"

abbrev pub daemonset_pod_labels : List (String × String)
daemonset_pod_labels = ("app", "chaosblade-tool") ∷ []

pub record OwnerReference : Type 0 where
  pub api_version : String
  pub kind : String
  pub name : String
  pub uid : String
  pub controller : Bool

pub record VolumeMount : Type 0 where
  pub name : String
  pub mount_path : String

pub record Container : Type 0 where
  pub name : String
  pub image : String
  pub image_pull_policy : String
  pub volume_mounts : List VolumeMount
  pub privileged : Bool

pub record NodeSelectorRequirement : Type 0 where
  pub key : String
  pub operator : String
  pub values : List String

-- A volume of a path on the host, with the type of the path where one is given.
pub record Volume : Type 0 where
  pub name : String
  pub path : String
  pub path_type : Option String

pub record PodSpec : Type 0 where
  pub containers : List Container
  -- The expressions of the one required term of the node affinity.
  pub affinity : List NodeSelectorRequirement
  pub dns_policy : String
  pub host_network : Bool
  pub host_pid : Bool
  -- Effect and operator of each toleration.
  pub tolerations : List (String × String)
  pub termination_grace_period_seconds : ℕ
  pub scheduler_name : String
  pub restart_policy : String
  pub volumes : List Volume

pub record DaemonSet : Type 0 where
  pub name : String
  pub namespace : String
  pub labels : List (String × String)
  pub owner_references : List OwnerReference
  pub selector : List (String × String)
  pub template_name : String
  pub template_labels : List (String × String)
  pub template_spec : PodSpec
  pub min_ready_seconds : ℕ
  pub update_strategy : String

module _ (settings : Settings) where
  unfoldable pub create_container : Container
  create_container = record {
    name = daemonset_pod_name;
    image = settings.image_repository ⧺ (":" ⧺ settings.version);
    image_pull_policy = settings.pull_policy;
    volume_mounts =
        record { name = "docker-socket"; mount_path = "/var/run/docker.sock" }
        ∷ record { name = "chaosblade-db-volume"; mount_path = "/opt/chaosblade/chaosblade.dat" }
        ∷ record { name = "hosts"; mount_path = "/etc/hosts" }
        ∷ [];
    privileged = true;
  }

  unfoldable pub create_affinity : List NodeSelectorRequirement
  create_affinity =
      record { key = "type"; operator = "NotIn"; values = "virtual-kubelet" ∷ [] } ∷ []

  unfoldable pub create_pod_spec : PodSpec
  unfolding create_container create_affinity
  create_pod_spec = record {
    containers = create_container ∷ [];
    affinity = create_affinity;
    dns_policy = "ClusterFirstWithHostNet";
    host_network = true;
    host_pid = true;
    tolerations = ("NoSchedule", "Exists") ∷ [];
    termination_grace_period_seconds = 30;
    scheduler_name = "default-scheduler";
    restart_policy = "Always";
    volumes =
        record { name = "docker-socket"; path = "/var/run/docker.sock"; path_type = none }
        ∷ record {
          name = "chaosblade-db-volume";
          path = "/var/run/chaosblade.dat";
          path_type = some "FileOrCreate";
        }
        ∷ record { name = "hosts"; path = "/etc/hosts"; path_type = none }
        ∷ [];
  }

  -- The object with createDaemonsetSpec and createPodTemplateSpec.
  unfoldable pub daemonset : List OwnerReference → DaemonSet
  unfolding create_pod_spec
  daemonset references = record {
    name = daemonset_pod_name;
    namespace = settings.namespace;
    labels = daemonset_pod_labels;
    owner_references = references;
    selector = daemonset_pod_labels;
    template_name = daemonset_pod_name;
    template_labels = daemonset_pod_labels;
    template_spec = create_pod_spec;
    min_ready_seconds = 5;
    update_strategy = "RollingUpdate";
  }

-- The answer to a creation.
pub data Created : Type 0 where
  created : Created
  already_exists : Created
  refused : String → Created

-- The Deployment that the references name, as the client reads it.
pub record Deployment : Type 0 where
  pub api_version : String
  pub kind : String
  pub name : String
  pub uid : String

module _ {W : Type 0} (operator_namespace : String ⊎ String)
    (get : String → String → W → Deployment ⊎ String) (create : DaemonSet → W → Created × W)
    (settings : Settings) where
  abbrev owned_by : Deployment ⊎ String → List OwnerReference ⊎ String
  owned_by (inr e) = inr e
  owned_by (inl d) = inl (
      record {
        api_version = d.api_version;
        kind = d.kind;
        name = d.name;
        uid = d.uid;
        controller = true;
      }
      ∷ [])

  -- `inr` is an error, also that of k8sutil.GetOperatorNamespace.
  unfoldable pub create_owner_references : W → List OwnerReference ⊎ String
  create_owner_references w = elim operator_namespace [
    | inr e ↦ inr e
    | inl namespace ↦ owned_by (get namespace "chaosblade-operator" w)
  ]

  abbrev deployed : Created × W → Option String × W
  deployed (created, w) = (none, w)
  deployed (already_exists, w) = (none, w)
  deployed (refused e, w) = (some e, w)

  unfoldable pub deploy_chaos_blade_tool : W → Option String × W
  unfolding create_owner_references daemonset
  deploy_chaos_blade_tool w = elim (create_owner_references w) [
    | inr e ↦ (some e, w)
    | inl references ↦ deployed (create (daemonset settings references) w)
  ]

-- The daemonset selects the pods that it makes, as the API server demands of it.
selects_own :
    (settings : Settings) (references : List OwnerReference)
    → (daemonset settings references).selector ≡ (daemonset settings references).template_labels
unfolding daemonset
selects_own settings references = refl
