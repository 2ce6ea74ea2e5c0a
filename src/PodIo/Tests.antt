-- ===== src/PodIo/Tests.antt =====
-- A pod with the file system on a port, a server that answers every request, and the theorems there.
use chaosblade_operator.Base.{
  String, ◌≡◌, ◌==◌, ◌⊎◌, inl, inr, refl, pos, negsuc, true, false, Option, none, some, [], ◌∷◌,
  All, if◌then◌else◌,
}
use chaosblade_operator.Api.{
  ExperimentStatus, return_success, create_success_resource_status,
  create_success_experiment_status, create_destroyed_experiment_status,
}
use chaosblade_operator.Model.Flags.{Flags, ExpModel}
use chaosblade_operator.Model.Identifier.{ContainerObjectMeta, get_identifier}
use chaosblade_operator.HookFs.Defs.{
  InjectMessage, Cache, load, inject_handler, recover_handler, default_hook_points,
}
use chaosblade_operator.HookFs.Client.{Http, fetched, fetch_failed}
use chaosblade_operator.HookFs.Faults.{has}
use chaosblade_operator.Pods.Defs.{Pod, Client, found, not_read, is_pod_ready, pod_status}
use chaosblade_operator.PodIo.Defs.{
  number, request_of, request, get_chaosfs_client, create, destroy,
}
use chaosblade_operator.PodIo.Requests.{Represents, request_of-Represents}
use chaosblade_operator.PodIo.Served.{IsServed, create_stores, destroy-create}
use chaosblade_operator.PodIo.Results.{IsFailure, IsSilent, destroy_blind}

abbrev db : Pod
db = record {
  name = "db";
  namespace = "default";
  deletion_timestamp = none;
  annotations = [];
  containers =
      record {
        name = "chaosblade-fuse";
        image = "fuse:1";
        ports = record { name = "fuse-port"; container_port = 65534 } ∷ [];
      }
      ∷ [];
  conditions = record { kind = "Ready"; status = "True" } ∷ [];
  pod_ip = "10.0.0.2";
}

abbrev reader : Client Cache
reader = record {
  get = λ namespace name w. (found db, w);
  delete = λ namespace name w. (none, w);
  update = λ pod w. (none, w);
}

abbrev model : ExpModel
model = record {
  target = "pod-IO";
  scope = "pod";
  action_name = "IO";
  action_flags = ("method", "read,open") ∷ ("delay", "-1") ∷ ("errno", "28") ∷ [];
  action_programs = [];
  action_process_hang = false;
}

-- A delay of -1 becomes the greatest number of 32 bits.
abbrev wanted : InjectMessage
wanted = record {
  methods = "read" ∷ "open" ∷ [];
  path = "";
  delay = 4294967295;
  percent = 0;
  random = false;
  errno = 28;
}

abbrev marshal : InjectMessage → String ⊎ String
marshal msg = inr "{}"

abbrev decode : String → Option InjectMessage
decode body = some wanted

abbrev server : Http Cache
server = record {
  post_curl = λ url body kind w.
      (record { result = "success"; error = none; code = 200 }, (inject_handler decode body w).1);
  get = λ url w. (fetched "success" 200, recover_handler w);
}

served : IsServed reader server marshal decode (λ addr w. w) wanted
served = record {
  encodes = λ small. ("{}", refl, refl);
  posts = λ addr body w d. (refl, refl, refl);
  gets = λ addr w. (refl, refl);
  reads = λ addr namespace name w. refl;
}

abbrev meta : ContainerObjectMeta
meta = record {
  id = "";
  container_runtime = "docker";
  container_id = "0123";
  container_name = "app";
  pod_name = "db";
  node_name = "n1";
  namespace = "default";
}

ready : is_pod_ready db ≡ true
unfolding is_pod_ready
ready = refl

reachable : get_chaosfs_client db ≡ some "10.0.0.2:65534"
unfolding get_chaosfs_client
reachable = refl

legal : request_of model.action_flags ≡ request wanted
unfolding request_of
legal = refl

-- A negative delay wraps.
abbrev negative : Flags
negative = ("delay", "-1") ∷ ("percent", "50") ∷ ("errno", "28") ∷ []

request_of-Represents_example :
    Represents (negsuc 0) 4294967295 × Represents (pos 50) 50 × Represents (pos 28) 28
unfolding request_of number
request_of-Represents_example =
    request_of-Represents negative
      (record wanted { methods = "" ∷ []; path = ""; delay = 4294967295; percent = 50; errno = 28 })
      (negsuc 0) (pos 50) (pos 28) refl refl refl refl

create_stores_example :
    ((create reader server marshal return_success model (some (meta ∷ [])) []).0
      ≡ return_success (
          create_success_experiment_status
            (create_success_resource_status (pod_status "" (get_identifier meta)) ∷ [])))
    × ((method : String)
        → load (create reader server marshal return_success model (some (meta ∷ [])) []).1 method
          ≡ (if has wanted.methods method then some wanted else none))
unfolding load
create_stores_example =
    create_stores reader server marshal decode (λ addr w. w) wanted served return_success meta db
      "10.0.0.2:65534" model (λ w. refl) ready reachable legal []

destroy-create_example :
    ((destroy reader server marshal return_success
        (some (meta ∷ []))
        (create reader server marshal return_success model (some (meta ∷ [])) []).1).0
      ≡ return_success (create_destroyed_experiment_status []))
    × ((method : String)
        → load
            (destroy reader server marshal return_success
              (some (meta ∷ []))
              (create reader server marshal return_success model (some (meta ∷ [])) []).1).1
            method
          ≡ (if has default_hook_points method
              then none
              else if has wanted.methods method
              then some wanted
              else none))
unfolding load
destroy-create_example =
    destroy-create reader server marshal decode (λ addr w. w) wanted served return_success meta db
      "10.0.0.2:65534" model (λ w. refl) ready reachable legal []

-- A server that cannot be reached.
abbrev unreachable : Http Cache
unreachable = record {
  post_curl = λ url body kind w. (record { result = ""; error = some "refused"; code = 0 }, w);
  get = λ url w. (fetch_failed "refused", w);
}

-- A client that finds no pod but "db".
abbrev partial_reader : Client Cache
partial_reader = record reader {
  get = λ ns name w. (if name == "db" then found db else not_read "gone", w);
}

abbrev lost : ContainerObjectMeta
lost = record meta { pod_name = "lost" }

destroy_blind_example :
    (destroy partial_reader unreachable marshal return_success (some (meta ∷ lost ∷ [])) []
      ≡ destroy partial_reader unreachable marshal return_success (some (meta ∷ [])) [])
    × ((e : ExperimentStatus) × ((destroy partial_reader unreachable marshal return_success
            (some (meta ∷ lost ∷ []))
            []).0
          ≡ return_success e)
        × (e.success ≡ true)
        × All IsFailure e.res_statuses)
unfolding IsSilent
destroy_blind_example =
    destroy_blind partial_reader unreachable marshal return_success (meta ∷ []) [] lost []
      (λ w. (refl, inl ("gone", refl)))

-- Without the flag "method" the request is for the method of the empty name.
no_method :
    request_of (("errno", "28") ∷ []) ≡ request (record wanted { methods = "" ∷ []; delay = 0 })
unfolding request_of
no_method = refl
