-- ===== src/Model/Shuffle.antt =====
-- randomPodSelected of exec/model/filter_pod.go. rand.Intn is a parameter over the state `W` of the
-- random source.
use mathlib.Core.List.{Perm}
use mathlib.Core.List.Perm
use chaosblade_operator.Base.{
  ℕ, zero, suc, ◌+◌, ◌≤◌, ◌≡◌, refl, ◌∙◌, none, some, List, [], ◌∷◌, ◌++◌, arith, length, get_elem?,
  set, take, drop, ℤ, pos, negsuc, ltb, if◌then◌else◌, length-set, Option-cases, true, ◌⊎◌, inl,
  inr, ◌↔◌, ltb_ℤ, take-append-drop, length-take,
}
use chaosblade_operator.Api.{Outcome, returns, panics}

-- s[:count] of a slice that is its whole array.
unfoldable pub slice_to {ℓ} : {A : Type ℓ} → List A → ℤ → Outcome (List A)
slice_to xs (negsuc n) = panics
slice_to xs (pos n) = if ltb (length xs) n then panics else returns (take n xs)

module _ {ℓ} {A : Type ℓ} where
  -- s[i], s[j] = s[j], s[i] for indices in range.
  unfoldable pub swap : List A → ℕ → ℕ → List A
  swap xs i j = elim (get_elem? xs i) [
    | none ↦ xs
    | some a ↦ elim (get_elem? xs j) [ none ↦ xs | some b ↦ set (set xs i b) j a ]
  ]

module _ {ℓ} {A : Type ℓ} {W : Type 0} (intn : ℕ → W → ℕ × W) where
  -- The loop, for i from its argument down to 1.
  unfoldable pub shuffle : ℕ → List A → W → List A × W
  unfolding swap
  shuffle zero xs w = (xs, w)
  shuffle (suc i) xs w = let (num, w') = intn (suc i + 1) w in shuffle i (swap xs (suc i) num) w'

  unfoldable pub random_pod_selected : List A → ℤ → W → Outcome (List A) × W
  unfolding shuffle slice_to
  random_pod_selected [] count w = (returns [], w)
  random_pod_selected (x ∷ xs) count w =
      let (shuffled, w') = shuffle (length xs) (x ∷ xs) w in (slice_to shuffled count, w')

module _ {ℓ} {A : Type ℓ} where
  perm-replace :
      (xs : List A) (k : ℕ) (a b : A) → get_elem? xs k ≡ some b → Perm (b ∷ set xs k a) (a ∷ xs)
  perm-replace [] k a b e = absurd (cc)
  perm-replace (x ∷ xs) zero a b e = rw (found e) (Perm.swap a b xs)
    where
      found : some x ≡ some b → x ≡ b
      found h = cc
  perm-replace (x ∷ xs) (suc k) a b e =
      Perm.trans (Perm.swap x b (set xs k a))
        (Perm.trans (Perm.cons x (perm-replace xs k a b e)) (Perm.swap a x xs))

  get_elem?-set :
      (xs : List A) (i j : ℕ) (b : A) → get_elem? xs j ≡ some b → get_elem? (set xs i b) j ≡ some b
  get_elem?-set [] i j b e = e
  get_elem?-set (x ∷ xs) zero zero b e = refl
  get_elem?-set (x ∷ xs) zero (suc j) b e = e
  get_elem?-set (x ∷ xs) (suc i) zero b e = e
  get_elem?-set (x ∷ xs) (suc i) (suc j) b e = get_elem?-set xs i j b e

  swap-Perm : (xs : List A) (i j : ℕ) → Perm (swap xs i j) xs
  unfolding swap
  swap-Perm xs i j = elim (Option-cases (get_elem? xs i)) [
    | inl missing ↦ rw (missing, swap) (Perm.refl xs)
    | inr (a, at_i) ↦ elim (Option-cases (get_elem? xs j)) [
      | inl missing ↦ rw (at_i, missing, swap) (Perm.refl xs)
      | inr (b, at_j) ↦
          rw (at_i, at_j, swap)
            (Perm.cons_inv (
              Perm.trans (perm-replace (set xs i b) j a b (get_elem?-set xs i j b at_j))
                (perm-replace xs i b a at_i)))
    ]
  ]

  length-swap : (xs : List A) (i j : ℕ) → length (swap xs i j) ≡ length xs
  unfolding swap
  length-swap xs i j = elim (Option-cases (get_elem? xs i)) [
    | inl missing ↦ rw (missing, swap)
    | inr (a, at_i) ↦ elim (Option-cases (get_elem? xs j)) [
      | inl missing ↦ rw (at_i, missing, swap)
      | inr (b, at_j) ↦ rw (at_i, at_j, swap, length-set, length-set)
    ]
  ]

module _ {ℓ} {A : Type ℓ} {W : Type 0} (intn : ℕ → W → ℕ × W) where
  shuffle-Perm : (i : ℕ) (xs : List A) (w : W) → Perm (shuffle intn i xs w).0 xs
  unfolding shuffle
  shuffle-Perm zero xs w = Perm.refl xs
  shuffle-Perm (suc i) xs w =
      let (num, w') = intn (suc i + 1) w in
      Perm.trans (shuffle-Perm i (swap xs (suc i) num) w') (swap-Perm xs (suc i) num)

  length-shuffle : (i : ℕ) (xs : List A) (w : W) → length (shuffle intn i xs w).0 ≡ length xs
  unfolding shuffle
  length-shuffle zero xs w = refl
  length-shuffle (suc i) xs w =
      let (num, w') = intn (suc i + 1) w in
      length-shuffle i (swap xs (suc i) num) w' ∙ length-swap xs (suc i) num

  -- A count from 0 to the number of pods selects that many of the pods, each at most once: with
  -- the pods that are left the selected ones are a permutation of all, whatever the random source.
  pub random_pod_selected-Perm :
      (pods : List A) (n : ℕ) (w : W)
      → n ≤ length pods
      → (sel : List A) × (rest : List A) × ((random_pod_selected intn pods (pos n) w).0
          ≡ returns sel)
        × (length sel ≡ n)
        × Perm (sel ++ rest) pods
  unfolding random_pod_selected
  random_pod_selected-Perm [] n w h = ([], [], refl, omega arith, Perm.refl [])
  random_pod_selected-Perm (x ∷ xs) n w h =
      let p = shuffle-Perm (length xs) (x ∷ xs) w in
      let ys = (shuffle intn (length xs) (x ∷ xs) w).0 in
      let fits : n ≤ length ys = omega (arith, length-shuffle (length xs) (x ∷ xs) w) in
      (take n ys, drop n ys, ground arith, length-take n ys fits, rw (take-append-drop n ys) p)

  -- The selection of some pods panics exactly if the count is negative or exceeds them.
  pub random_pod_selected_panics_iff :
      (x : A) (xs : List A) (count : ℤ) (w : W)
      → ((random_pod_selected intn (x ∷ xs) count w).0 ≡ panics)
        ↔ ((ltb_ℤ count (pos 0) ≡ true) ⊎ (ltb_ℤ (pos (length (x ∷ xs))) count ≡ true))
  unfolding random_pod_selected
  random_pod_selected_panics_iff x xs (negsuc n) w = (λ e. ground arith, λ e. refl)
  random_pod_selected_panics_iff x xs (pos n) w =
      let same = length-shuffle (length xs) (x ∷ xs) w in
      (λ e. ground (arith, same), λ e. ground (arith, same))
