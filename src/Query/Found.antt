-- ===== src/Query/Found.antt =====
-- What the queries find, and what becomes of an experiment that they find nothing for.
use mathlib.Core.Path.{subst⁻¹}
use chaosblade_operator.Base.{
  ℕ, String, ◌==◌, ◌≡◌, ◌≢◌, ◌↔◌, inl, inr, ◌∙◌, refl, sym, ap, eq_iff, Bool, true, false, Option,
  none, some, List, [], ◌∷◌, ◌++◌, append_assoc, append-nil, if◌then◌else◌, index, split, comma,
  index-assign, Bool-cases,
}
use chaosblade_operator.Api.{
  ExperimentSpec, Response, response_success, response_fail, returns,
  parameter_invalid_k8s_pod_query,
}
use chaosblade_operator.Kube.{Pod}
use chaosblade_operator.Model.Flags.{
  Flags, extract_exp_model_from_experiment_spec, check_pod_flags, resource_group_key_flag,
  resource_names_flag, resource_labels_flag, resource_namespace_flag,
}
use chaosblade_operator.Model.Count.{Float64, get_resource_count}
use chaosblade_operator.Model.Shuffle.{random_pod_selected, slice_to}
use chaosblade_operator.Model.Select.{
  Groups, Selection, group, pick_groups, pick, filter_by_other_flags,
}
use chaosblade_operator.Scope.Defs.{
  Action, filter_queried, check_and_query, default_namespace, with_namespace,
  get_matched_pod_resources, create_pods, none_matched, run_selected, matched_of_pods,
}
use chaosblade_operator.Query.Defs.{
  Requirements, Labels, Cluster, accepted, grown, by_names, parse_labels, labelled_pods, query_pods,
  named_pods,
}

-- The objects of a table that are named and accepted, in the order of the names.
abbrev pub keep {ℓ} : {A : Type ℓ} → Bool → A → List A → List A
keep true a rest = a ∷ rest
keep false a rest = rest

module _ (req : Requirements) where
  abbrev pub named :
      {A : Type 0} → (A → Labels) → (String → Option A) → List (req.R) → List String → List A
  named labels_of table rs [] = []
  named labels_of table rs (name ∷ names) = elim (table name) [
    | none ↦ named labels_of table rs names
    | some a ↦ keep (accepted req rs (labels_of a)) a (named labels_of table rs names)
  ]

  by_names_lem :
      {W A : Type 0} (labels_of : A → Labels) (get : String → W → Option A × W)
      (table : String → Option A)
      → ((name : String) (w : W) → get name w ≡ (table name, w))
      → (rs : List (req.R)) (names : List String) (acc : List A) (w : W)
      → by_names req labels_of get rs names acc w ≡ (acc ++ named labels_of table rs names, w)
  unfolding by_names grown
  by_names_lem {A = A} labels_of get table stable rs [] acc w =
      ap (λ l. (l, w)) (sym (append-nil acc))
  by_names_lem {A = A} labels_of get table stable rs (name ∷ names) acc w =
      ap (λ p. by_names req labels_of get rs names (grown req labels_of get rs acc p.0) p.1)
        (stable name w)
      ∙ by_names_lem labels_of get table stable rs names _ w
      ∙ ap (λ l. (l, w)) (kept (table name))
    where
      kept :
          (found : Option A)
          → grown req labels_of get rs acc found ++ named labels_of table rs names
            ≡ acc ++ elim found [
              | none ↦ named labels_of table rs names
              | some a ↦ keep (accepted req rs (labels_of a)) a (named labels_of table rs names)
            ]
      kept none = refl
      kept (some a) = kept_one (accepted req rs (labels_of a)) a
        where
          kept_one :
              (b : Bool) (a : A)
              → (if b then acc ++ a ∷ [] else acc) ++ named labels_of table rs names
                ≡ acc ++ keep b a (named labels_of table rs names)
          kept_one true a = append_assoc acc (a ∷ []) _
          kept_one false a = refl

  module _ {W : Type 0} (cluster : Cluster req W) (range : Groups String → Groups String) where
    query_pods-by_names :
        (flags : Flags) (w : W)
        → index flags resource_names_flag ≢ ""
        → query_pods req cluster range flags w
          ≡ named_pods req cluster range (index flags resource_names_flag) (
              by_names req
                (λ (p : Pod). p.labels)
                (cluster.get_pod (index flags resource_namespace_flag))
                (parse_labels req range (index flags resource_labels_flag))
                (split comma (index flags resource_names_flag))
                []
                w)
    unfolding query_pods
    query_pods-by_names flags w given = elim (Bool-cases (index flags resource_names_flag == "")) [
      | inl empty ↦ absurd (given ((eq_iff (index flags resource_names_flag) "").0 empty))
      | inr full ↦ rw (full, query_pods) refl
    ]

    -- What a query by names answers, for the pods that it found.
    abbrev Answers : List Pod → W → (List Pod × Response) × W → Type 0
    Answers found w p = (p.0.0 ≡ found) × (p.1 ≡ w) × ((p.0.1.success ≡ true) ↔ (found ≢ []))

    named_pods-Answers :
        (names : String) (found : List Pod) (w : W)
        → Answers found w (named_pods req cluster range names (found, w))
    named_pods-Answers names [] w = (refl, refl, (λ e. absurd (cc), λ h. absurd (h refl)))
    named_pods-Answers names (p ∷ ps) w = (refl, refl, (λ e f. cc, λ h. refl))

    -- If reading a pod changes nothing and its answer depends on the namespace and the name only: the
    -- pods that are found by their names are the pods of the names that can be read and are accepted,
    -- in the order of the names; there is an error exactly if there is none of them.
    pub query_pods-named :
        (table : String → String → Option Pod)
        → ((namespace name : String) (w : W)
            → cluster.get_pod namespace name w ≡ (table namespace name, w))
        → (flags : Flags) (w : W) → index flags resource_names_flag ≢ ""
        → let found =
            named
              (λ (p : Pod). p.labels)
              (table (index flags resource_namespace_flag))
              (parse_labels req range (index flags resource_labels_flag))
              (split comma (index flags resource_names_flag)) in
          ((query_pods req cluster range flags w).0.0 ≡ found)
          × ((query_pods req cluster range flags w).1 ≡ w)
          × (((query_pods req cluster range flags w).0.1.success ≡ true) ↔ (found ≢ []))
    query_pods-named table stable flags w given =
        let names = index flags resource_names_flag in
        let rs = parse_labels req range (index flags resource_labels_flag) in
        let namespace = index flags resource_namespace_flag in
        let e =
          query_pods-by_names flags w given
          ∙ ap (named_pods req cluster range names) (
              by_names_lem (λ (p : Pod). p.labels) (cluster.get_pod namespace) (table namespace)
                (stable namespace) rs (split comma names) [] w) in
        subst⁻¹ (Answers _ w) e (named_pods-Answers names _ w)

    nothing_named :
        (flags : Flags) (w : W)
        → index flags resource_names_flag ≡ ""
        → index flags resource_labels_flag ≡ ""
        → query_pods req cluster range flags w ≡ (([], response_success), w)
    unfolding query_pods labelled_pods parse_labels
    nothing_named flags w no_names no_labels = rw (no_names, no_labels, query_pods) refl

module _ (float : Float64) {W : Type 0} (intn : ℕ → W → ℕ × W) (range : Groups Pod → Groups Pod)
    (whole : range [] ≡ []) where
  -- Of no pods none is taken, whatever the flags say.
  filter_nothing :
      (flags : Flags) (w : W)
      → (reason : Response) × (filter_by_other_flags float intn range [] flags w
          ≡ (returns ([], reason), w))
  unfolding filter_by_other_flags pick pick_groups random_pod_selected slice_to group
      get_resource_count
  filter_nothing flags w = elim (Bool-cases (index flags resource_group_key_flag == "")) [
    | inr grouped ↦ (
      response_fail parameter_invalid_k8s_pod_query (resource_group_key_flag ∷ []),
      rw (grouped, whole, filter_by_other_flags) refl,
    )
    | inl one ↦ elim (Bool-cases (index flags "random" == "true")) [
      | inl random ↦ (response_success, rw (one, random, filter_by_other_flags) refl)
      | inr first ↦ (response_success, rw (one, first, filter_by_other_flags) refl)
    ]
  ]

module _ {W : Type 0} (req : Requirements) (cluster : Cluster req W)
    (map_range : Groups String → Groups String) (specs : List (String × List (Action W)))
    (float : Float64) (intn : ℕ → W → ℕ × W) (range : Groups Pod → Groups Pod)
    (whole : range [] ≡ []) where
  abbrev query : Flags → W → (List Pod × Response) × W
  query = query_pods req cluster map_range

  abbrev filter : List Pod → Flags → W → Selection Pod × W
  filter = filter_by_other_flags float intn range

  Nothing : W → Selection Pod × W → Type 0
  Nothing w p = (reason : Response) × (p ≡ (returns ([], reason), w))

  check_and_query-Nothing :
      (flags : Flags) (w : W)
      → index flags resource_names_flag ≡ ""
      → index flags resource_labels_flag ≡ ""
      → Nothing w (check_and_query specs query filter flags w)
  unfolding check_and_query Nothing
  check_and_query-Nothing flags w no_names no_labels =
      let e = nothing_named req cluster map_range flags w no_names no_labels in
      let (reason, f) = filter_nothing float intn range whole flags w in
      elim (Bool-cases (check_pod_flags flags).success) [
        | inr refused ↦ (check_pod_flags flags, rw (refused, check_and_query) refl)
        | inl passed ↦ (
          reason,
          rw (passed, check_and_query) (ap (filter_queried specs query filter flags) e ∙ f),
        )
      ]

  default_namespace_lem :
      (given : Flags) (name : String)
      → (resource_namespace_flag == name) ≡ false
      → index given name ≡ ""
      → index (with_namespace given) name ≡ ""
  unfolding with_namespace
  default_namespace_lem given name other absent =
      elim (Bool-cases (index given resource_namespace_flag == "")) [
        | inl none_given ↦
            rw none_given
              (index-assign given resource_namespace_flag default_namespace name ∙ rw other absent)
        | inr given_one ↦ rw given_one absent
      ]

  -- An experiment on pods that gives neither names nor labels, though perhaps a count or a percentage:
  -- its creation reads nothing from the cluster, calls no executor, and answers with
  -- ContainerInContextNotFound. (Ranging over an empty map yields nothing.)
  pub count_alone_refused :
      (docker containerd id : String) (spec : ExperimentSpec) (w : W)
      → let flags = (extract_exp_model_from_experiment_spec spec).action_flags in
        index flags resource_names_flag ≡ ""
        → index flags resource_labels_flag ≡ ""
        → create_pods specs
            (query_pods req cluster map_range)
            (filter_by_other_flags float intn range)
            docker
            containerd
            id
            spec
            w
          ≡ (returns none_matched, w)
  unfolding create_pods matched_of_pods get_matched_pod_resources Nothing
  count_alone_refused docker containerd id spec w no_names no_labels =
      let model = extract_exp_model_from_experiment_spec spec in
      let given = model.action_flags in
      let (reason, e) =
        check_and_query-Nothing (with_namespace given) w
          (default_namespace_lem model.action_flags resource_names_flag refl no_names)
          (default_namespace_lem model.action_flags resource_labels_flag refl no_labels) in
      ap
        (run_selected specs query filter docker containerd id
          (record model { action_flags = with_namespace given }))
        e
