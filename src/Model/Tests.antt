-- ===== src/Model/Tests.antt =====
-- The theorems on flags, counts, selections and identifiers at concrete inputs.
use native.Mathlib.Nat.{mul-le-mul_right}
use mathlib.Core.List.{Perm}
use chaosblade_operator.Base.{
  ℕ, ◌/◌, ◌*◌, ◌≡◌, ◌++◌, String, refl, ap, none, List, [], ◌∷◌, arith, ℤ, pos, negsuc, ◌≤ℤ◌,
  length, atoi,
}
use chaosblade_operator.Api.{returns, panics}
use chaosblade_operator.Kube.{Pod}
use chaosblade_operator.Model.Flags.{Flags, resource_count_flag, resource_percent_flag}
use chaosblade_operator.Model.Count.{Float64, IsIeee, given, missing, flag_value}
use chaosblade_operator.Model.Shuffle.{random_pod_selected, random_pod_selected-Perm}
use chaosblade_operator.Model.Select.{Groups, filter_by_other_flags}
use chaosblade_operator.Model.Selected.{negative_count_panics}
use chaosblade_operator.Model.Identifier.{
  ContainerObjectMeta, IsPlain, get_identifier, parse_identifier, parse_identifier-get_identifier,
}

abbrev quotient : ℤ → ℤ → ℤ
quotient (pos a) (pos b) = pos (a / b)
quotient _ _ = pos 0

abbrev product : ℤ → ℤ → ℤ
product (pos a) (pos b) = pos (a * b)
product _ _ = pos 0

-- Numbers without a fraction, on which the laws of the float hold.
abbrev whole : Float64
whole = record {
  F = ℤ;
  of_int = λ x. x;
  div = quotient;
  mul = product;
  round = λ x. x;
  to_int = λ x. x;
}

product_mono : (x y : ℤ) (n : ℕ) → x ≤ℤ y → product x (pos n) ≤ℤ product y (pos n)
product_mono (pos a) (pos b) n h = omega (arith, mul-le-mul_right {m = a} {n = b} n (omega arith))
product_mono (pos a) (negsuc b) n h = absurd (omega arith)
product_mono (negsuc a) (pos b) n h = omega arith
product_mono (negsuc a) (negsuc b) n h = omega arith

whole-IsIeee : IsIeee whole
whole-IsIeee = record {
  ◌≤F◌ = λ x y. x ≤ℤ y;
  div_mono = λ a b h. omega arith;
  mul_mono = product_mono;
  round_mono = λ x y h. h;
  to_int_mono = λ x y h. h;
  zero_div = refl;
  hundred_div = refl;
  zero_mul = λ n. ap pos (omega arith);
  one_mul = λ n. ap pos (omega arith);
  round_int = λ n. refl;
  to_int_of_int = λ n h. refl;
}

abbrev two : Flags
two = ("namespace", "default") ∷ ("evict-count", "2") ∷ []

abbrev below_zero : Flags
below_zero = ("evict-count", "-3") ∷ []

abbrev grouped : Flags
grouped = ("evict-group", "zone") ∷ ("evict-count", "1") ∷ []

abbrev pod : String → Pod
pod name = record {
  name = name;
  namespace = "default";
  node_name = "n1";
  labels = [];
  deletion_timestamp = none;
  container_statuses = [];
}

abbrev three : List Pod
three = pod "a" ∷ pod "b" ∷ pod "c" ∷ []

abbrev zero_drawn : ℕ → ℕ → ℕ × ℕ
zero_drawn n w = (0, w)

two_given : flag_value two resource_count_flag ≡ given (pos 2)
unfolding flag_value atoi
two_given = refl

two_percent : flag_value two resource_percent_flag ≡ missing
unfolding flag_value
two_percent = refl

negative_given : flag_value below_zero resource_count_flag ≡ given (negsuc 2)
unfolding flag_value atoi
negative_given = refl

negative_percent : flag_value below_zero resource_percent_flag ≡ missing
unfolding flag_value
negative_percent = refl

random_pod_selected-Perm_example :
    (sel : List Pod) × (rest : List Pod) × ((random_pod_selected zero_drawn three (pos 2) 0).0
      ≡ returns sel)
    × (length sel ≡ 2)
    × Perm (sel ++ rest) three
random_pod_selected-Perm_example = random_pod_selected-Perm zero_drawn three 2 0 (omega arith)

negative_count_run :
    (filter_by_other_flags whole zero_drawn (λ (g : Groups Pod). g) three below_zero 0).0 ≡ panics
negative_count_run =
    negative_count_panics whole zero_drawn (λ g. g) (pod "a") (pod "b" ∷ pod "c" ∷ []) below_zero 0
      2 refl negative_given negative_percent

abbrev meta : ContainerObjectMeta
meta = record {
  id = "e1";
  container_runtime = "docker";
  container_id = "0123";
  container_name = "app";
  pod_name = "web";
  node_name = "n1";
  namespace = "default";
}

meta-IsPlain : IsPlain meta
meta-IsPlain = record {
  namespace_lacks = ground arith;
  node_lacks = ground arith;
  pod_lacks = ground arith;
  name_lacks = ground arith;
  id_lacks = ground arith;
  name_gap = λ e. cc;
  id_gap = λ e. cc;
}

parse_identifier-get_identifier_example :
    parse_identifier (get_identifier meta) ≡ record meta { id = "" }
parse_identifier-get_identifier_example = parse_identifier-get_identifier meta meta-IsPlain
