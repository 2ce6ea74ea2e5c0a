-- ===== src/Containers/Tests.antt =====
-- A pod with two containers, and the theorems at that pod.
use chaosblade_operator.Base.{
  index, if◌then◌else◌, ◌==◌, ℕ, ◌+◌, String, length, All, map, trim_space, arith, ◌≡◌, ◌≢◌, eq_iff,
  inl, refl, true, false, none, List, [], ◌∷◌, split, comma,
}
use chaosblade_operator.Api.{
  ExperimentSpec, ExperimentStatus, zero_status, Response, response_success, returns,
}
use chaosblade_operator.Model.Flags.{Flags, extract_exp_model_from_experiment_spec}
use chaosblade_operator.Model.Identifier.{ContainerObjectMeta, IsPlain}
use chaosblade_operator.Model.Select.{Selection}
use chaosblade_operator.Scope.Defs.{Action, exec, get_matched_pod_resources, with_namespace}
use chaosblade_operator.Scope.Restored.{recorded}
use chaosblade_operator.Containers.Controller.{
  value, create, create-by_name, destroy, destroy-recorded,
}
use chaosblade_operator.Kube.{ContainerStatus, Pod}
use chaosblade_operator.Containers.Defs.{
  container_ids_flag, container_names_flag, get_matched_container_meta_list, identify, without,
}
use chaosblade_operator.Containers.Stale.{stale_error_refuses}
use chaosblade_operator.Containers.Matched.{named_all, IsHealthy, matched_by_name}

abbrev app : ContainerStatus
app = record { name = "app"; container_id = "containerd://0123"; running = true }

abbrev job : ContainerStatus
job = record { name = "job"; container_id = "containerd://4567"; running = false }

abbrev web : List ContainerStatus → Pod
web statuses = record {
  name = "web";
  namespace = "default";
  node_name = "n1";
  labels = [];
  deletion_timestamp = none;
  container_statuses = statuses;
}

prefix_removed : without "docker://" "docker://ab" 0 ≡ "ab"
unfolding without
prefix_removed = refl

app-IsHealthy : IsHealthy "docker" "containerd" app
unfolding identify
app-IsHealthy = (refl, (λ e. cc), refl)

matched_by_name_example :
    get_matched_container_meta_list "docker" "containerd" "" "app" "" (web (app ∷ []) ∷ [])
    ≡ returns (
      named_all "docker" "containerd" (split comma "app") (web (app ∷ []) ∷ []),
      response_success,
    )
matched_by_name_example =
    matched_by_name "docker" "containerd" "app" "" (λ e. cc) (web (app ∷ []) ∷ [])
      ((app-IsHealthy, tt), tt)

abbrev other : ContainerStatus
other = record { name = "proxy"; container_id = "containerd://89ab"; running = true }

other-IsHealthy : IsHealthy "docker" "containerd" other
unfolding identify
other-IsHealthy = (refl, (λ e. cc), refl)

job_other : job.name ≢ app.name
job_other = ground (arith, eq_iff "job" "app")

stale_error_refuses_example :
    (r : Response) × (get_matched_container_meta_list "docker" "containerd" "" "app" ""
        (web (other ∷ job ∷ app ∷ []) ∷ [])
      ≡ returns ([], r))
    × (r.success ≡ false)
unfolding identify
stale_error_refuses_example =
    stale_error_refuses "docker" "containerd" "app" "" (λ e. cc) (ground arith)
      (web (other ∷ job ∷ app ∷ [])) [] (other ∷ []) job (app ∷ []) refl
      ((other-IsHealthy, λ e. cc), tt) refl job_other (inl refl) (refl, (refl, tt))

-- The executor of "cpu load" counts the containers that it is given, in the default namespace.
abbrev load : Action ℕ
load = record {
  name = "load";
  aliases = [];
  programs = [];
  exec = λ id cs model w. (
    response_success,
    if index model.action_flags "namespace" == "default" then w + length cs else w,
  );
}

abbrev specs : List (String × List (Action ℕ))
specs = ("container-cpu", load ∷ []) ∷ []

abbrev by_container : ExperimentSpec
by_container = record {
  scope = "container";
  target = "container-cpu";
  action = "load";
  desc = "";
  matchers =
      record { name = "container-names"; value = " app " ∷ [] }
      ∷ record { name = "names"; value = "web" ∷ [] }
      ∷ [];
}

abbrev one_pod : Flags → ℕ → (List Pod × Response) × ℕ
one_pod flags w = ((web (app ∷ []) ∷ [], response_success), w)

abbrev all_pods : List Pod → Flags → ℕ → Selection Pod × ℕ
all_pods pods flags w = (returns (pods, response_success), w)

no_ids : value specs "docker" "containerd" one_pod all_pods "b" by_container container_ids_flag ≡ ""
unfolding trim_space extract_exp_model_from_experiment_spec
no_ids = refl

app_given :
    value specs "docker" "containerd" one_pod all_pods "b" by_container container_names_flag ≢ ""
unfolding trim_space extract_exp_model_from_experiment_spec
app_given = λ e. cc

selected :
    (get_matched_pod_resources specs one_pod all_pods
      (extract_exp_model_from_experiment_spec by_container).action_flags
      5).1
    ≡ (returns (web (app ∷ []) ∷ [], response_success), 5)
unfolding get_matched_pod_resources extract_exp_model_from_experiment_spec
selected = refl

create-by_name_example :
    create specs "docker" "containerd" one_pod all_pods "b" by_container 5
    ≡ (returns response_success, 6)
unfolding exec extract_exp_model_from_experiment_spec trim_space split identify with_namespace
create-by_name_example =
    create-by_name specs "docker" "containerd" one_pod all_pods "b" by_container
      (web (app ∷ []) ∷ []) response_success 5 5 no_ids app_given selected refl
      ((app-IsHealthy, tt), tt)

abbrev injected : ContainerObjectMeta
injected = record {
  id = "e1";
  container_runtime = "containerd";
  container_id = "0123";
  container_name = "app";
  pod_name = "web";
  node_name = "n1";
  namespace = "default";
}

injected-IsPlain : All IsPlain (injected ∷ [])
injected-IsPlain = (
  record {
    namespace_lacks = ground arith;
    node_lacks = ground arith;
    pod_lacks = ground arith;
    name_lacks = ground arith;
    id_lacks = ground arith;
    name_gap = λ e. absurd (cc);
    id_gap = λ e. absurd (cc);
  },
  tt,
)

abbrev old : ExperimentStatus
old = record zero_status { res_statuses = map (recorded "container") (injected ∷ []) }

destroy-recorded_example :
    destroy specs "b" by_container old 5
    ≡ exec specs "b" (injected ∷ []) (extract_exp_model_from_experiment_spec by_container) 5
destroy-recorded_example =
    destroy-recorded specs "b" "container" by_container old injected [] 5 injected-IsPlain refl
