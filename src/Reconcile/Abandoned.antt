-- ===== src/Reconcile/Abandoned.antt =====
-- Which resources the periodic clean-up removes, against an API server whose writes succeed.
use mathlib.Core.Path.{subst, subst⁻¹}
use chaosblade_operator.Base.{
  ℕ, ◌+◌, String, ◌==◌, ◌≡◌, ◌≢◌, ◌⊎◌, inl, inr, refl, ap, ◌∙◌, arith, eq_iff, Bool, true, false,
  ◌&&◌, ◌||◌, Option, none, some, List, [], ◌∷◌, All, ℤ, if◌then◌else◌, Bool-cases, Option-cases,
}
use chaosblade_operator.Api.{ChaosBlade, destroying}
use chaosblade_operator.Reconcile.Defs.{is_phase, is_some}
use chaosblade_operator.Reconcile.CleanUp.{
  Cleaner, Exceeds, clean_up_each, periodically_clean_up_blade,
}

-- The documented behaviour of the API server: a resource that is gone stays gone, a resource under
-- deletion goes with its last finalizer, a patch changes no other resource, and a list request none.
-- A listed resource under deletion is stored under deletion, or gone.
pub record IsServer {W : Type 0} (cleaner : Cleaner W) (get : String → W → Option ChaosBlade)
    : Type 0 where
  pub patch_gone : (n : String) (w : W) → get n w ≡ none → get n (cleaner.patch n w) ≡ none
  pub patch_last :
      (n : String) (w : W) (cb : ChaosBlade)
      → get n w ≡ some cb
      → is_some cb.deletion_timestamp ≡ true
      → get n (cleaner.patch n w) ≡ none
  pub patch_elsewhere : (n m : String) (w : W) → n ≢ m → get m (cleaner.patch n w) ≡ get m w
  pub list_reads : (n : String) (w : W) → get n (cleaner.list w).1 ≡ get n w
  pub lists_stored :
      (w : W)
      → All
          (λ item.
            is_some item.deletion_timestamp ≡ true
            → (get item.name (cleaner.list w).1 ≡ none)
              ⊎ ((cb : ChaosBlade) × (get item.name (cleaner.list w).1 ≡ some cb)
                  × (is_some cb.deletion_timestamp ≡ true)))
          (cleaner.list w).0

-- A resource of a name is listed as being deleted since a time that is `old`, in phase Destroying.
abbrev pub is_stuck : (ℕ → Bool) → ChaosBlade → Bool
is_stuck old item = elim item.deletion_timestamp [
  | none ↦ false
  | some stamp ↦ is_phase item.status.phase destroying && old stamp
]

unfoldable pub is_abandoned : (ℕ → Bool) → String → List ChaosBlade → Bool
is_abandoned old n [] = false
is_abandoned old n (item ∷ items) =
    (item.name == n && is_stuck old item) || is_abandoned old n items

module _ {W : Type 0} (cleaner : Cleaner W) (get : String → W → Option ChaosBlade)
    (server : IsServer cleaner get) (exceeds : Exceeds) (clock : ℕ → ℕ) (interval : ℤ)
    (old : ℕ → Bool) (short : (stamp i : ℕ) → exceeds (clock i) stamp interval ≡ old stamp) where
  -- Nothing is stored, or a resource under deletion.
  abbrev IsMarked : Option ChaosBlade → Type 0
  IsMarked o =
      (o ≡ none) ⊎ ((cb : ChaosBlade) × (o ≡ some cb) × (is_some cb.deletion_timestamp ≡ true))

  abbrev AllMarked : List ChaosBlade → W → Type 0
  AllMarked items w =
      All (λ item. is_some item.deletion_timestamp ≡ true → IsMarked (get item.name w)) items

  patch-gone : (n : String) (w : W) → IsMarked (get n w) → get n (cleaner.patch n w) ≡ none
  patch-gone n w (inl gone) = server.patch_gone n w gone
  patch-gone n w (inr (cb, stored, deleted)) = server.patch_last n w cb stored deleted

  patch-IsMarked :
      (n m : String) (w : W)
      → IsMarked (get n w)
      → IsMarked (get m w)
      → IsMarked (get m (cleaner.patch n w))
  patch-IsMarked n m w h k = elim (Bool-cases (n == m)) [
    | inl same ↦
        inl (subst (λ x. get x (cleaner.patch n w) ≡ none) ((eq_iff n m).0 same) (patch-gone n w h))
    | inr differ ↦ subst⁻¹ IsMarked (server.patch_elsewhere n m w (ground (arith, eq_iff n m))) k
  ]

  patch-AllMarked :
      (n : String) (items : List ChaosBlade) (w : W)
      → IsMarked (get n w)
      → AllMarked items w
      → AllMarked items (cleaner.patch n w)
  patch-AllMarked n [] w h k = tt
  patch-AllMarked n (item ∷ items) w h (k, ks) =
      (λ d. patch-IsMarked n item.name w h (k d), patch-AllMarked n items w h ks)

  stuck-deleted :
      (item : ChaosBlade) → is_stuck old item ≡ true → is_some item.deletion_timestamp ≡ true
  stuck-deleted item = elim (Option-cases item.deletion_timestamp) [
    | inl kept ↦ rw (kept, is_stuck) (λ h. absurd (cc))
    | inr (stamp, deleted) ↦ rw deleted (λ h. refl)
  ]

  -- One round of the loop, with the count of readings behind it.
  clean_up_each_round :
      (item : ChaosBlade) (items : List ChaosBlade) (i : ℕ) (w : W)
      → (j : ℕ) × (clean_up_each cleaner exceeds clock interval (item ∷ items) i w
          ≡ clean_up_each cleaner exceeds clock interval items j
              (if is_stuck old item then cleaner.patch item.name w else w))
  unfolding clean_up_each
  clean_up_each_round item items i w = elim (Option-cases item.deletion_timestamp) [
    | inl kept ↦ (i, rw (kept, clean_up_each, is_stuck) refl)
    | inr (stamp, deleted) ↦ (i + 1, rw (deleted, clean_up_each, is_stuck, short stamp i) refl)
  ]

  settled :
      (b rest : Bool) (x y : Option ChaosBlade)
      → (b ≡ true → y ≡ none)
      → (b ≡ false → y ≡ x)
      → (if rest then none else y) ≡ (if b || rest then none else x)
  settled true true x y h k = refl
  settled false true x y h k = refl
  settled true false x y h k = h refl
  settled false false x y h k = k refl

  get-clean_up_each :
      (n : String) (items : List ChaosBlade) (i : ℕ) (w : W)
      → AllMarked items w
      → get n (clean_up_each cleaner exceeds clock interval items i w)
        ≡ (if is_abandoned old n items then none else get n w)
  unfolding clean_up_each is_abandoned
  get-clean_up_each n [] i w h = refl
  get-clean_up_each n (item ∷ items) i w (h, hs) =
      let (j, e) = clean_up_each_round item items i w in
      let rest = is_abandoned old n items in
      let w' = cleaner.patch item.name w in
      ap (get n) e ∙ elim (Bool-cases (is_stuck old item)) [
        | inr free ↦ rw free (
            get-clean_up_each n items j w hs
            ∙ settled (item.name == n && false) rest (get n w) (get n w)
                (λ b. absurd (ground arith)) (λ b. refl))
        | inl stuck ↦
            let marked = h (stuck-deleted item stuck) in
            rw stuck (
              get-clean_up_each n items j w' (patch-AllMarked item.name items w marked hs)
              ∙ settled (item.name == n && true) rest (get n w) (get n w')
                  (λ b.
                    subst (λ x. get x w' ≡ none) ((eq_iff item.name n).0 (ground arith))
                      (patch-gone item.name w marked))
                  (λ b. server.patch_elsewhere item.name n w (ground (arith, eq_iff item.name n))))
      ]

  -- Against an API server as `IsServer` describes it, in a pass whose readings of the clock agree on
  -- which deletions are old: the clean-up removes every resource that is listed in phase Destroying
  -- and under an old deletion, whatever finalizers it has and whether its experiments were destroyed
  -- or not, and leaves every other resource as it is.
  pub clean_up-get :
      (n : String) (w : W)
      → get n (periodically_clean_up_blade cleaner exceeds clock interval w)
        ≡ (if is_abandoned old n (cleaner.list w).0 then none else get n w)
  unfolding periodically_clean_up_blade
  clean_up-get n w =
      get-clean_up_each n (cleaner.list w).0 0 (cleaner.list w).1 (server.lists_stored w)
      ∙ ap (λ o. if is_abandoned old n (cleaner.list w).0 then none else o) (server.list_reads n w)
