-- ===== src/Model/Flags.antt =====
-- exec/model/model.go (the names of the flags), CheckFlags of filter.go, CheckPodFlags of
-- filter_pod.go and ExtractExpModelFromExperimentSpec of controller.go.
use text.Mathlib.TextLemmas.{append-eq-nil_iff}
use chaosblade_operator.Base.{
  String, ◌⧺◌, ◌==◌, ◌≡◌, ◌≢◌, ◌↔◌, refl, Bool, true, false, List, [], ◌∷◌, arith, length, ltb,
  if◌then◌else◌, split, join, comma, index, assign, eq_iff, All, Lacks, Lacks-of_split, split-Lacks,
}
use chaosblade_operator.Api.{
  FlagSpec, ExperimentSpec, Response, response_success, response_fail, parameter_less,
  parameter_invalid_ns_not_one,
}

abbrev pub Flags : Type 0
Flags = List (String × String)

abbrev pub resource_count_flag : String
resource_count_flag = "evict-count"

abbrev pub resource_percent_flag : String
resource_percent_flag = "evict-percent"

abbrev pub resource_names_flag : String
resource_names_flag = "names"

abbrev pub resource_namespace_flag : String
resource_namespace_flag = "namespace"

abbrev pub resource_labels_flag : String
resource_labels_flag = "labels"

abbrev pub resource_group_key_flag : String
resource_group_key_flag = "evict-group"

-- The flags of which one must be given.
abbrev pub selecting_flags : List String
selecting_flags =
    resource_count_flag ∷ resource_percent_flag ∷ resource_labels_flag ∷ resource_names_flag ∷ []

-- The values of flags one behind the other.
unfoldable pub values_of : Flags → String → List String → String
values_of flags value [] = value
values_of flags value (name ∷ names) = values_of flags (value ⧺ index flags name) names

unfoldable pub check_flags : Flags → Response
unfolding values_of
check_flags flags =
    if values_of flags "" selecting_flags == ""
    then response_fail parameter_less (join "|" selecting_flags ∷ [])
    else response_success

unfoldable pub check_pod_flags : Flags → Response
unfolding check_flags split
check_pod_flags flags =
    let namespace = index flags resource_namespace_flag in
    if namespace == ""
    then response_fail parameter_less (resource_namespace_flag ∷ [])
    else if ltb 1 (length (split comma namespace))
    then response_fail parameter_invalid_ns_not_one (resource_namespace_flag ∷ [])
    else check_flags flags

-- spec.ExpModel, with the fields that the operator sets or reads.
pub record ExpModel : Type 0 where
  pub target : String
  pub scope : String
  pub action_name : String
  pub action_flags : Flags
  pub action_programs : List String
  pub action_process_hang : Bool

-- The loop over the matchers: a later one of the same name replaces an earlier one.
unfoldable pub flags_of : Flags → List FlagSpec → Flags
unfolding assign join
flags_of flags [] = flags
flags_of flags (m ∷ ms) = flags_of (assign flags m.name (join "," m.value)) ms

unfoldable pub extract_exp_model_from_experiment_spec : ExperimentSpec → ExpModel
unfolding flags_of
extract_exp_model_from_experiment_spec e = record {
  target = e.target;
  scope = e.scope;
  action_name = e.action;
  action_flags = flags_of [] e.matchers;
  action_programs = [];
  action_process_hang = false;
}

values_of_empty_iff :
    (flags : Flags) (value : String) (names : List String)
    → (values_of flags value names ≡ "")
      ↔ ((value ≡ "") × All (λ name. index flags name ≡ "") names)
unfolding values_of
values_of_empty_iff flags value [] = (λ e. (e, tt), λ h. h.0)
values_of_empty_iff flags value (name ∷ names) =
    let (to, from) = values_of_empty_iff flags (value ⧺ index flags name) names in
    (
      λ e. let (both, rest) = to e in let (v, n) = append-eq-nil_iff.0 both in (v, (n, rest)),
      λ h. from (append-eq-nil_iff.1 (h.0, h.1.0), h.1.1),
    )

-- `CheckFlags` fails exactly if the count, the percentage, the labels and the names are all missing
-- or empty.
pub check_flags_fails_iff :
    (flags : Flags)
    → ((check_flags flags).success ≡ false) ↔ All (λ name. index flags name ≡ "") selecting_flags
unfolding check_flags
check_flags_fails_iff flags =
    let (to, from) = values_of_empty_iff flags "" selecting_flags in
    (
      λ h. (to (ground (arith, eq_iff (values_of flags "" selecting_flags) ""))).1,
      λ h. ground (
        arith,
        eq_iff (values_of flags "" selecting_flags) "",
        let e : values_of flags "" selecting_flags ≡ "" = from (refl, h) in e,
      ),
    )

-- `CheckPodFlags` succeeds exactly if the namespace is given and has no comma, and `CheckFlags`
-- succeeds.
pub check_pod_flags_iff :
    (flags : Flags)
    → ((check_pod_flags flags).success ≡ true) ↔ (
        (index flags resource_namespace_flag ≢ "")
        × Lacks comma (index flags resource_namespace_flag)
        × ((check_flags flags).success ≡ true))
unfolding check_pod_flags
check_pod_flags_iff flags =
    let namespace = index flags resource_namespace_flag in
    (
      λ h. (
        ground (arith, eq_iff namespace ""),
        Lacks-of_split comma namespace (ground arith),
        ground arith,
      ),
      λ h. ground (arith, eq_iff namespace "", split-Lacks comma namespace h.1),
    )
