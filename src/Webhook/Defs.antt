-- ===== src/Webhook/Defs.antt =====
-- mutator.go. Of a container the model has what the mutation reads or sets from the pod; the sidecar's
-- constant resources, port and security context are left out.
use chaosblade_operator.Base.{
  ℕ, String, ◌⧺◌, ◌==◌, Bool, true, false, not, ◌||◌, Option, none, some, List, [], ◌∷◌,
  if◌then◌else◌, path_join, path_dir, path_base,
}
use chaosblade_operator.Api.{Outcome, returns, panics}

pub record VolumeMount : Type 0 where
  pub name : String
  pub mount_path : String
  pub mount_propagation : Option String

pub record Container : Type 0 where
  pub name : String
  pub image : String
  pub command : List String
  pub args : List String
  pub volume_mounts : List VolumeMount

pub record Pod : Type 0 where
  pub annotations : List (String × String)
  pub containers : List Container

abbrev pub sidecar_name : String
sidecar_name = "chaosblade-fuse"

-- The error texts of the mutation.
pub data MutateError : Type 0 where
  propagation_missing propagation_not_supported : MutateError
  no_volume_mount : String → MutateError

-- The error that mutatePodsFn returns, and the pod it leaves.
abbrev pub Mutated : Type 0
Mutated = Option MutateError × Pod

abbrev pub annotation : List (String × String) → String → Option String
annotation [] k = none
annotation ((j, v) ∷ m) k = if j == k then some v else annotation m k

unfoldable pub has_sidecar : List Container → Bool
has_sidecar [] = false
has_sidecar (c ∷ cs) = if c.name == sidecar_name then true else has_sidecar cs

abbrev bidirectional : VolumeMount → VolumeMount
bidirectional m = record m { mount_propagation = some "Bidirectional" }

pub data Search : Type 0 where
  failed : MutateError → Search
  target : Option VolumeMount → Search

abbrev supported : String → Bool
supported p = p == "HostToContainer" || p == "Bidirectional"

-- The loop over the mounts of the first container; the last mount of the name is taken. The zero
-- value of the target is `none`.
unfoldable pub search : String → List VolumeMount → Option VolumeMount → Search
search volume [] found = target found
search volume (m ∷ ms) found = elim (m.name == volume) [
  | false ↦ search volume ms found
  | true ↦ elim m.mount_propagation [
    | none ↦ failed propagation_missing
    | some p ↦ elim (supported p) [
      | false ↦ failed propagation_not_supported
      | true ↦ search volume ms (some (bidirectional m))
    ]
  ]
]

-- GetSidecarImage, with the flag, the function of the constants where they are set, the default
-- repository and the version.
unfoldable pub get_sidecar_image : String → Option String → String → String → String
get_sidecar_image flag constant default_repository version =
    if not (flag == "") then flag else elim constant [
      | some repository ↦ repository ⧺ (":" ⧺ version)
      | none ↦ default_repository ⧺ (":" ⧺ version)
    ]

abbrev original_of : String → String → String → String
original_of mount_point mount_path sub_path =
    if mount_point == mount_path
    then path_join (path_dir mount_path) ("fuse-" ⧺ path_base mount_path)
    else path_join mount_path ("fuse-" ⧺ sub_path)

module _ (image port : String) where
  -- The sidecar; `port` is the decimal of FuseServerPort.
  unfoldable pub sidecar : VolumeMount → String → Container
  unfolding path_join path_dir path_base
  sidecar mount sub_path =
      let mount_point = path_join mount.mount_path sub_path in
      record {
        name = sidecar_name;
        image = image;
        command = "/opt/chaosblade/bin/chaos_fuse" ∷ [];
        args =
            ("--address=:" ⧺ port)
            ∷ ("--mountpoint=" ⧺ mount_point)
            ∷ ("--original=" ⧺ original_of mount_point mount.mount_path sub_path)
            ∷ [];
        volume_mounts = mount ∷ [];
      }

  unfoldable pub add_sidecar : Pod → Container → String → String → Search → Mutated
  unfolding sidecar
  add_sidecar pod first volume sub_path (failed e) = (some e, pod)
  add_sidecar pod first volume sub_path (target none) = (some (no_volume_mount volume), pod)
  add_sidecar pod first volume sub_path (target (some mount)) =
      if mount.name == ""
      then (some (no_volume_mount volume), pod)
      else (none, record pod { containers = sidecar mount sub_path ∷ first ∷ [] })

  -- What follows the reading of the two annotations.
  unfoldable pub mutate_with : Pod → String → String → Outcome Mutated
  unfolding has_sidecar search add_sidecar
  mutate_with pod volume sub_path = elim (has_sidecar pod.containers) [
    | true ↦ returns (none, pod)
    | false ↦ elim pod.containers [
      | [] ↦ panics
      | first ∷ others ↦
          returns (add_sidecar pod first volume sub_path (search volume first.volume_mounts none))
    ]
  ]

  unfoldable pub mutate_pods_fn : Pod → Outcome Mutated
  unfolding mutate_with
  mutate_pods_fn pod = elim (annotation pod.annotations "chaosblade/inject-volume") [
    | none ↦ returns (none, pod)
    | some volume ↦ elim (annotation pod.annotations "chaosblade/inject-volume-subpath") [
      | none ↦ returns (none, pod)
      | some sub_path ↦ mutate_with pod volume sub_path
    ]
  ]

-- The admission response.
pub data Admission : Type 0 where
  errored : ℕ → Admission
  allowed : Admission
  patch_from_raw : String → Option String → Admission

module _ (image port : String) (decode : String → Option Pod) (marshal : Pod → Option String) where
  abbrev respond : Pod → Mutated → Admission
  respond pod (some e, patched) = errored 500
  respond pod (none, patched) = elim (marshal pod) [
    | none ↦ allowed
    | some original ↦ patch_from_raw original (marshal patched)
  ]

  unfoldable pub handle : String → Outcome Admission
  unfolding mutate_pods_fn
  handle request = elim (decode request) [
    | none ↦ returns (errored 400)
    | some pod ↦ elim (mutate_pods_fn image port pod) [
      | panics ↦ panics
      | returns mutated ↦ returns (respond pod mutated)
    ]
  ]
