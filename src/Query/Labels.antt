-- ===== src/Query/Labels.antt =====
-- What the parsed labels ask for.
use chaosblade_operator.Base.{
  String, ◌==◌, ◌≡◌, ◌∙◌, refl, sym, ap, arith, eq_iff, inl, inr, Bool, true, false, none, some,
  List, [], ◌∷◌, ◌++◌, append_assoc, append-nil, if◌then◌else◌, split_n, cut, Option-cases,
}
use chaosblade_operator.Model.Select.{Groups, add_to, members_of}
use chaosblade_operator.Query.Defs.{equals, collect}

-- Of the labels with this key, the values, in their order: what stands behind the first sign of
-- equality.
abbrev pub values_for : List String → String → List String
values_for [] key = []
values_for (label ∷ labels) key = elim (cut equals label) [
  | none ↦ values_for labels key
  | some (k, v) ↦ if k == key then v ∷ values_for labels key else values_for labels key
]

members_of-add_to :
    (groups : Groups String) (k v key : String)
    → members_of (add_to groups k v) key
      ≡ (if k == key then members_of groups key ++ v ∷ [] else members_of groups key)
unfolding add_to
members_of-add_to [] k v key = ground arith
members_of-add_to ((j, vs) ∷ groups) k v key =
    ground (arith, eq_iff j k, eq_iff j key, eq_iff k key, members_of-add_to groups k v key)

appended :
    (b : Bool) (m : List String) (v : String) (vs : List String)
    → (if b then m ++ v ∷ [] else m) ++ vs ≡ m ++ (if b then v ∷ vs else vs)
appended true m v vs = append_assoc m (v ∷ []) vs
appended false m v vs = refl

-- Grouping the labels keeps, under each key, the values that were there and adds behind them those of
-- the labels with that key.
pub members_of-collect :
    (labels : List String) (groups : Groups String) (key : String)
    → members_of (collect labels groups) key ≡ members_of groups key ++ values_for labels key
unfolding collect split_n
members_of-collect [] groups key = sym (append-nil _)
members_of-collect (label ∷ labels) groups key = elim (Option-cases (cut equals label)) [
  | inl none_found ↦ rw (none_found, collect, values_for) (members_of-collect labels groups key)
  | inr ((k, v), found) ↦
      rw (found, collect, values_for)
        (members_of-collect labels (add_to groups k v) key
          ∙ ap (λ l. l ++ values_for labels key) (members_of-add_to groups k v key)
          ∙ appended (k == key) (members_of groups key) v (values_for labels key))
]
