-- ===== src/Pods/Tests.antt =====
-- A cluster in which one pod is ready and can be deleted, and the theorems there.
use chaosblade_operator.Base.{
  ℕ, String, ◌≡◌, ◌==◌, refl, none, some, List, [], ◌∷◌, map, if◌then◌else◌,
}
use chaosblade_operator.Api.{ExperimentStatus, return_success}
use chaosblade_operator.Model.Identifier.{ContainerObjectMeta}
use chaosblade_operator.Pods.Defs.{Pod, Client, found, not_read, pod_identifier, delete_create}
use chaosblade_operator.Pods.Results.{any_ok, identifiers, delete_create_lem}

abbrev web : Pod
web = record {
  name = "web";
  namespace = "default";
  deletion_timestamp = none;
  annotations = [];
  containers = record { name = "app"; image = "app:1"; ports = [] } ∷ [];
  conditions = record { kind = "Ready"; status = "True" } ∷ [];
  pod_ip = "10.0.0.1";
}

abbrev cluster : Client ℕ
cluster = record {
  get = λ ns name w. (if name == "web" then found web else not_read "not found", w);
  delete = λ ns name w. (if name == "web" then none else some "not found", w);
  update = λ pod w. (none, w);
}

abbrev meta : String → ContainerObjectMeta
meta pod = record {
  id = "";
  container_runtime = "docker";
  container_id = "0123";
  container_name = "app";
  pod_name = pod;
  node_name = "n1";
  namespace = "default";
}

abbrev matched : List ContainerObjectMeta
matched = meta "web" ∷ meta "gone" ∷ []

delete_create_run :
    (status : ExperimentStatus) × ((delete_create cluster return_success (some matched) 0).0.result
      ≡ some status)
    × (status.success ≡ any_ok status.res_statuses)
    × (identifiers status.res_statuses ≡ map pod_identifier matched)
delete_create_run = delete_create_lem cluster return_success (λ s. refl) matched 0
