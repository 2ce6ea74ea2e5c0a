-- ===== src/Model/Identifier.antt =====
-- exec/model/context.go: the identifier of a container, which the status of an experiment stores and
-- its destruction reads back.
use text.Mathlib.TextLemmas.{append_assoc}
use chaosblade_operator.Base.{
  ℕ, zero, suc, String, ◌⧺◌, ◌==◌, ◌≡◌, ◌≢◌, ◌⊎◌, inl, inr, refl, eq_iff, List, [], ◌∷◌, arith,
  if◌then◌else◌, Lacks, slash, cut-slash, cut-Lacks, split_n, String_discrete,
}

pub record ContainerObjectMeta : Type 0 where
  pub id : String
  pub container_runtime : String
  pub container_id : String
  pub container_name : String
  pub pod_name : String
  pub node_name : String
  pub namespace : String

-- One of the three guarded extensions of the identifier.
abbrev with_part : String → String → String
with_part identifier part = if part == "" then identifier else identifier ⧺ ("/" ⧺ part)

unfoldable pub get_identifier : ContainerObjectMeta → String
get_identifier c =
    with_part
      (with_part
        (with_part (c.namespace ⧺ ("/" ⧺ (c.node_name ⧺ ("/" ⧺ c.pod_name)))) c.container_name)
        c.container_id)
      c.container_runtime

abbrev empty_meta : ContainerObjectMeta
empty_meta = record {
  id = "";
  container_runtime = "";
  container_id = "";
  container_name = "";
  pod_name = "";
  node_name = "";
  namespace = "";
}

-- The switch on the number of parts.
abbrev meta_of : List String → ContainerObjectMeta
meta_of [] = empty_meta
meta_of (a ∷ []) = record empty_meta { namespace = a }
meta_of (a ∷ b ∷ []) = record empty_meta { namespace = a; node_name = b }
meta_of (a ∷ b ∷ c ∷ []) = record empty_meta { namespace = a; node_name = b; pod_name = c }
meta_of (a ∷ b ∷ c ∷ d ∷ []) = record empty_meta {
  namespace = a;
  node_name = b;
  pod_name = c;
  container_name = d;
}
meta_of (a ∷ b ∷ c ∷ d ∷ e ∷ []) = record empty_meta {
  namespace = a;
  node_name = b;
  pod_name = c;
  container_name = d;
  container_id = e;
}
meta_of (a ∷ b ∷ c ∷ d ∷ e ∷ f ∷ []) = record empty_meta {
  namespace = a;
  node_name = b;
  pod_name = c;
  container_name = d;
  container_id = e;
  container_runtime = f;
}
meta_of (a ∷ b ∷ c ∷ d ∷ e ∷ f ∷ g ∷ l) = empty_meta

unfoldable pub parse_identifier : String → ContainerObjectMeta
unfolding split_n
parse_identifier identifier = meta_of (split_n slash 6 identifier)

split_n-slash :
    (k : ℕ) (a b : String)
    → Lacks slash a
    → split_n slash (suc (suc k)) (a ⧺ ("/" ⧺ b)) ≡ a ∷ split_n slash (suc k) b
unfolding split_n
split_n-slash k a b h = rw (cut-slash a b h, split_n)

split_n-last : (k : ℕ) (a : String) → Lacks slash a → split_n slash (suc k) a ≡ a ∷ []
unfolding split_n
split_n-last zero a h = refl
split_n-last (suc k) a h = rw (cut-Lacks slash a h, split_n)

-- No part but the runtime holds a slash, and an empty part of the container has only empty parts
-- behind it.
pub record IsPlain (c : ContainerObjectMeta) : Type 0 where
  pub namespace_lacks : Lacks slash c.namespace
  pub node_lacks : Lacks slash c.node_name
  pub pod_lacks : Lacks slash c.pod_name
  pub name_lacks : Lacks slash c.container_name
  pub id_lacks : Lacks slash c.container_id
  pub name_gap : c.container_name ≡ "" → c.container_id ≡ ""
  pub id_gap : c.container_id ≡ "" → c.container_runtime ≡ ""

with_part-empty : (s part : String) → part ≡ "" → with_part s part ≡ s
with_part-empty s part e = ground (arith, eq_iff part "")

with_part-nonempty : (s part : String) → part ≢ "" → with_part s part ≡ s ⧺ ("/" ⧺ part)
with_part-nonempty s part e = ground (arith, eq_iff part "")

module _ (c : ContainerObjectMeta) (plain : IsPlain c) where
  abbrev RoundTrip : Type 0
  RoundTrip = parse_identifier (get_identifier c) ≡ record c { id = "" }

  pod_only : c.container_name ≡ "" → c.container_id ≡ "" → c.container_runtime ≡ "" → RoundTrip
  unfolding get_identifier parse_identifier
  pod_only n i r =
      rw
        (
          with_part-empty _ c.container_runtime r,
          with_part-empty _ c.container_id i,
          with_part-empty _ c.container_name n,
          split_n-slash 4 c.namespace (c.node_name ⧺ ("/" ⧺ c.pod_name)) plain.namespace_lacks,
          split_n-slash 3 c.node_name c.pod_name plain.node_lacks,
          split_n-last 3 c.pod_name plain.pod_lacks,
        )
        (rw (n, i, r) refl)

  named : c.container_name ≢ "" → c.container_id ≡ "" → c.container_runtime ≡ "" → RoundTrip
  unfolding get_identifier parse_identifier
  named n i r =
      rw
        (
          with_part-empty _ c.container_runtime r,
          with_part-empty _ c.container_id i,
          with_part-nonempty _ c.container_name n,
          append_assoc,
          append_assoc,
          append_assoc,
          append_assoc,
          split_n-slash 4 c.namespace _ plain.namespace_lacks,
          split_n-slash 3 c.node_name _ plain.node_lacks,
          split_n-slash 2 c.pod_name _ plain.pod_lacks,
          split_n-last 2 c.container_name plain.name_lacks,
        )
        (rw (i, r) refl)

  identified : c.container_name ≢ "" → c.container_id ≢ "" → c.container_runtime ≡ "" → RoundTrip
  unfolding get_identifier parse_identifier
  identified n i r =
      rw
        (
          with_part-empty _ c.container_runtime r,
          with_part-nonempty _ c.container_id i,
          with_part-nonempty _ c.container_name n,
          append_assoc,
          append_assoc,
          append_assoc,
          append_assoc,
          append_assoc,
          append_assoc,
          split_n-slash 4 c.namespace _ plain.namespace_lacks,
          split_n-slash 3 c.node_name _ plain.node_lacks,
          split_n-slash 2 c.pod_name _ plain.pod_lacks,
          split_n-slash 1 c.container_name _ plain.name_lacks,
          split_n-last 1 c.container_id plain.id_lacks,
        )
        (rw r refl)

  complete : c.container_name ≢ "" → c.container_id ≢ "" → c.container_runtime ≢ "" → RoundTrip
  unfolding get_identifier parse_identifier
  complete n i r = rw (
    with_part-nonempty _ c.container_runtime r,
    with_part-nonempty _ c.container_id i,
    with_part-nonempty _ c.container_name n,
    append_assoc,
    append_assoc,
    append_assoc,
    append_assoc,
    append_assoc,
    append_assoc,
    append_assoc,
    append_assoc,
    split_n-slash 4 c.namespace _ plain.namespace_lacks,
    split_n-slash 3 c.node_name _ plain.node_lacks,
    split_n-slash 2 c.pod_name _ plain.pod_lacks,
    split_n-slash 1 c.container_name _ plain.name_lacks,
    split_n-slash 0 c.container_id _ plain.id_lacks,
  )

empty-cases : (s : String) → (s ≡ "") ⊎ (s ≢ "")
empty-cases s = elim (String_discrete s "") [ yes e ↦ inl e | no e ↦ inr e ]

-- Parsing the identifier of a container, a pod or a node gives its fields back, all but the
-- experiment's id, if no field but the runtime holds a slash, an empty container name comes with
-- an empty container id, and an empty container id with an empty runtime.
pub parse_identifier-get_identifier :
    (c : ContainerObjectMeta)
    → IsPlain c
    → parse_identifier (get_identifier c) ≡ record c { id = "" }
parse_identifier-get_identifier c plain = elim (empty-cases c.container_name) [
  | inl n ↦ let i = plain.name_gap n in pod_only c plain n i (plain.id_gap i)
  | inr n ↦ elim (empty-cases c.container_id) [
    | inl i ↦ named c plain n i (plain.id_gap i)
    | inr i ↦ elim (empty-cases c.container_runtime) [
      | inl r ↦ identified c plain n i r
      | inr r ↦ complete c plain n i r
    ]
  ]
]
