-- ===== src/Webhook/Tests.antt =====
-- A pod that asks for the sidecar, and the theorems at that pod.
use chaosblade_operator.Base.{◌≡◌, refl, none, some, [], ◌∷◌}
use chaosblade_operator.Api.{returns}
use chaosblade_operator.Webhook.Defs.{VolumeMount, Container, Pod, sidecar, mutate_pods_fn}
use chaosblade_operator.Webhook.Mutation.{IsMutation, mutate_pods_fn-IsMutation}

abbrev data_mount : VolumeMount
data_mount = record {
  name = "data";
  mount_path = "/data";
  mount_propagation = some "HostToContainer";
}

abbrev app : Container
app = record {
  name = "app";
  image = "app:1";
  command = [];
  args = [];
  volume_mounts = data_mount ∷ [];
}

abbrev proxy : Container
proxy = record app { name = "proxy"; volume_mounts = [] }

abbrev asking : Pod
asking = record {
  annotations =
      ("chaosblade/inject-volume", "data") ∷ ("chaosblade/inject-volume-subpath", "sub") ∷ [];
  containers = app ∷ proxy ∷ [];
}

abbrev answered : Pod
answered = record asking {
  containers =
      sidecar "tool:1" "65534" (record data_mount { mount_propagation = some "Bidirectional" })
        "sub"
      ∷ app
      ∷ [];
}

mutates : mutate_pods_fn "tool:1" "65534" asking ≡ returns (none, answered)
unfolding mutate_pods_fn
mutates = refl

mutate_pods_fn-IsMutation_example : IsMutation "tool:1" "65534" asking answered
mutate_pods_fn-IsMutation_example =
    mutate_pods_fn-IsMutation "tool:1" "65534" asking answered mutates
