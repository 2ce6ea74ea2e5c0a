-- ===== src/Model/Selected.antt =====
-- What the selection of pods and of nodes comes to.
use Prim.Native.Nat.{min}
use chaosblade_operator.Base.{
  ℕ, suc, ◌^◌, ◌<◌, String, ◌==◌, ◌≡◌, ◌≢◌, inl, inr, refl, ap, eq_iff, false, List, [], ◌∷◌, arith,
  length, take, index, split, comma, ℤ, pos, negsuc, ltb_ℤ, Bool-cases,
}
use chaosblade_operator.Api.{response_success, returns, panics}
use chaosblade_operator.Kube.{Pod, Node}
use chaosblade_operator.Model.Flags.{
  Flags, resource_group_key_flag, resource_count_flag, resource_percent_flag,
}
use chaosblade_operator.Model.Count.{
  Float64, IsIeee, get_resource_count, count_of, clamp_count, percent_count, flag_value, given,
  missing, count_min,
}
use chaosblade_operator.Model.Shuffle.{slice_to, random_pod_selected}
use chaosblade_operator.Model.Select.{
  Groups, pick, filter_by_other_flags, group_node, group_nodes, pick_node_groups,
  filter_nodes_by_other_flags,
}

slice_to-min :
    {A : Type 0} (xs : List A) (c : ℕ)
    → slice_to xs (pos (min c (length xs))) ≡ returns (take (min c (length xs)) xs)
unfolding slice_to
slice_to-min xs c = ground arith

group_node-id :
    (keys : List String) (node : Node) (groups : Groups Node) → group_node keys node groups ≡ groups
unfolding group_node
group_node-id [] node groups = refl
group_node-id (key ∷ keys) node groups = group_node-id keys node groups

group_nodes-id :
    (keys : List String) (nodes : List Node) (groups : Groups Node)
    → group_nodes keys nodes groups ≡ groups
unfolding group_nodes
group_nodes-id keys [] groups = refl
group_nodes-id keys (node ∷ nodes) groups =
    rw (group_node-id keys node groups) (group_nodes-id keys nodes groups)

module _ (float : Float64) where
  -- With a key to group by that is not empty, no node is selected and the selection succeeds,
  -- whatever the nodes. `range` gives the entries of a map in some order, so it keeps the empty
  -- map empty.
  pub grouped_nodes_lost :
      (range : Groups Node → Groups Node) (nodes : List Node) (flags : Flags)
      → range [] ≡ []
      → index flags resource_group_key_flag ≢ ""
      → filter_nodes_by_other_flags float range nodes flags ≡ returns ([], response_success)
  unfolding filter_nodes_by_other_flags pick_node_groups
  grouped_nodes_lost range nodes flags order grouped =
      let keys = split comma (index flags resource_group_key_flag) in
      ground (
        arith,
        eq_iff (index flags resource_group_key_flag) "",
        group_nodes-id keys nodes [],
        order,
      )

  clamp_negative :
      (k n : ℕ) (limit : ℤ) → (j : ℕ) × (clamp_count float (negsuc k) limit n ≡ negsuc j)
  unfolding clamp_count
  clamp_negative k n (pos l) = (k, ground arith)
  clamp_negative k n (negsuc l) = elim (Bool-cases (ltb_ℤ (negsuc l) (negsuc k))) [
    | inl e ↦ (l, ground arith)
    | inr e ↦ (k, ground arith)
  ]

  negative_count :
      (n k : ℕ) (flags : Flags)
      → flag_value flags resource_count_flag ≡ given (negsuc k)
      → flag_value flags resource_percent_flag ≡ missing
      → ((get_resource_count float (suc n) flags).1 ≡ response_success)
        × (j : ℕ) × ((get_resource_count float (suc n) flags).0 ≡ negsuc j)
  unfolding get_resource_count
  negative_count n k flags count percent =
      rw (count, percent, count_of)
        (let (j, e) = clamp_negative k (suc n) (percent_count float (pos 100) (suc n)) in
          (refl, j, e))

  module _ {W : Type 0} (intn : ℕ → W → ℕ × W) (range : Groups Pod → Groups Pod) (pods : List Pod)
      (flags : Flags) (w : W) (ungrouped : index flags resource_group_key_flag ≡ "") where
    -- For fewer than 2^53 pods, with floats as `IsIeee` describes them: without a key to group
    -- by, without "random" set to "true", with a count that is given and positive and no
    -- percentage, the selection takes that many pods from the front, or all if there are fewer.
    pub front_selected :
        (c : ℕ)
        → IsIeee float
        → length pods < 2 ^ 53
        → (index flags "random" == "true") ≡ false
        → flag_value flags resource_count_flag ≡ given (pos c)
        → flag_value flags resource_percent_flag ≡ missing
        → filter_by_other_flags float intn range pods flags w
          ≡ (returns (take (min c (length pods)) pods, response_success), w)
    unfolding filter_by_other_flags pick
    front_selected c ieee small ordered count percent =
        let counted = count_min float ieee (length pods) c flags small count percent in
        rw (ungrouped, filter_by_other_flags)
          (rw (ap (λ p. p.1) counted, ordered, ap (λ p. p.0) counted, pick)
            (rw (slice_to-min pods c) refl))

  -- Without a key to group by and without a percentage, a negative count is accepted, and the
  -- selection from one pod or more panics.
  pub negative_count_panics :
      {W : Type 0} (intn : ℕ → W → ℕ × W) (range : Groups Pod → Groups Pod) (pod : Pod)
      (pods : List Pod) (flags : Flags) (w : W) (k : ℕ)
      → index flags resource_group_key_flag ≡ ""
      → flag_value flags resource_count_flag ≡ given (negsuc k)
      → flag_value flags resource_percent_flag ≡ missing
      → (filter_by_other_flags float intn range (pod ∷ pods) flags w).0 ≡ panics
  unfolding filter_by_other_flags pick random_pod_selected slice_to
  negative_count_panics intn range pod pods flags w k ungrouped count percent =
      let (ok, j, below) = negative_count (length pods) k flags count percent in
      rw (ungrouped, filter_by_other_flags)
        (elim (Bool-cases (index flags "random" == "true")) [
          | inl random ↦ rw (ok, below, random, pick) refl
          | inr ordered ↦ rw (ok, below, ordered, pick) refl
        ])
