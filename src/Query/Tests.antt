-- ===== src/Query/Tests.antt =====
-- A cluster with two pods, and the theorems there.
use chaosblade_operator.Base.{
  ℕ, String, ◌==◌, ◌≡◌, ◌≢◌, ◌↔◌, refl, Bool, true, false, ◌||◌, Option, none, some, List, [], ◌∷◌,
  ◌++◌, if◌then◌else◌, index, split, comma, ℤ,
}
use chaosblade_operator.Api.{ExperimentSpec, returns}
use chaosblade_operator.Kube.{Pod}
use chaosblade_operator.Model.Flags.{
  Flags, resource_names_flag, resource_labels_flag, extract_exp_model_from_experiment_spec,
}
use chaosblade_operator.Model.Count.{Float64}
use chaosblade_operator.Model.Select.{Groups, members_of, filter_by_other_flags}
use chaosblade_operator.Scope.Defs.{create_pods, none_matched}
use chaosblade_operator.Query.Defs.{Requirements, Cluster, items, collect, parse_labels, query_pods}
use chaosblade_operator.Query.Labels.{values_for, members_of-collect}
use chaosblade_operator.Query.Found.{named, query_pods-named, count_alone_refused}

abbrev elem : List String → String → Bool
elem [] s = false
elem (x ∷ xs) s = x == s || elem xs s

-- The operator In on keys and values that are all legal.
abbrev in_values : Requirements
in_values = record {
  R = String × List String;
  new_requirement = λ key values. some (key, values);
  matches = λ r labels. elem r.1 (index labels r.0);
}

abbrev pod : String → List (String × String) → Pod
pod name labels = record {
  name = name;
  namespace = "default";
  node_name = "n1";
  labels = labels;
  deletion_timestamp = none;
  container_statuses = [];
}

abbrev table : String → String → Option Pod
table namespace name =
    if name == "a"
    then some (pod "a" (("app", "web") ∷ ("zone", "x") ∷ []))
    else if name == "b"
    then some (pod "b" (("app", "db") ∷ []))
    else none

abbrev cluster : Cluster in_values ℕ
cluster = record {
  get_pod = λ namespace name w. (table namespace name, w);
  list_pods = λ namespace rs w. (items [], w);
  get_node = λ name w. (none, w);
  list_nodes = λ rs w. (items [], w);
}

abbrev same : Groups String → Groups String
same groups = groups

abbrev by_name : Flags
by_name = ("names", "a,b,c") ∷ ("labels", "app=web,zone=y") ∷ ("namespace", "default") ∷ []

-- The pod "a" has the label app=web, but not zone=y: by name it is found all the same.
one_label_enough :
    (query_pods in_values cluster same by_name 5).0.0
    ≡ pod "a" (("app", "web") ∷ ("zone", "x") ∷ []) ∷ []
unfolding query_pods
one_label_enough = refl

members_of-collect_example :
    members_of (collect ("app=a" ∷ "x" ∷ "app=b=c" ∷ []) []) "app"
    ≡ [] ++ values_for ("app=a" ∷ "x" ∷ "app=b=c" ∷ []) "app"
members_of-collect_example = members_of-collect ("app=a" ∷ "x" ∷ "app=b=c" ∷ []) [] "app"

names_given : index by_name resource_names_flag ≢ ""
names_given = λ e. cc

query_pods-named_example :
    let found =
      named in_values
        (λ (p : Pod). p.labels)
        (table "default")
        (parse_labels in_values same "app=web,zone=y")
        (split comma "a,b,c") in
    ((query_pods in_values cluster same by_name 5).0.0 ≡ found)
    × ((query_pods in_values cluster same by_name 5).1 ≡ 5)
    × (((query_pods in_values cluster same by_name 5).0.1.success ≡ true) ↔ (found ≢ []))
query_pods-named_example =
    query_pods-named in_values cluster same table (λ namespace name w. refl) by_name 5 names_given

abbrev float : Float64
float = record {
  F = ℤ;
  of_int = λ n. n;
  div = λ a b. a;
  mul = λ a b. a;
  round = λ a. a;
  to_int = λ a. a;
}

abbrev counted : ExperimentSpec
counted = record {
  scope = "pod";
  target = "pod-cpu";
  action = "load";
  desc = "";
  matchers =
      record { name = "evict-count"; value = "1" ∷ [] }
      ∷ record { name = "namespace"; value = "default" ∷ [] }
      ∷ [];
}

no_names :
    index (extract_exp_model_from_experiment_spec counted).action_flags resource_names_flag ≡ ""
unfolding extract_exp_model_from_experiment_spec
no_names = refl

no_labels :
    index (extract_exp_model_from_experiment_spec counted).action_flags resource_labels_flag ≡ ""
unfolding extract_exp_model_from_experiment_spec
no_labels = refl

count_alone_refused_example :
    create_pods []
      (query_pods in_values cluster same)
      (filter_by_other_flags float (λ n w. (0, w)) (λ g. g))
      "docker"
      "containerd"
      "b1"
      counted
      5
    ≡ (returns none_matched, 5)
count_alone_refused_example =
    count_alone_refused in_values cluster same [] float (λ n w. (0, w)) (λ g. g) refl "docker"
      "containerd" "b1" counted 5 no_names no_labels
