-- ===== src/Reconcile/CleanUpTests.antt =====
-- A server that holds one resource or none, and the clean-up there.
use mathlib.Core.Path.{subst}
use chaosblade_operator.Base.{
  ℕ, ◌-◌, String, ◌==◌, ◌≡◌, ◌≢◌, ◌⊎◌, inl, inr, refl, arith, eq_iff, Bool, true, false, Option,
  none, some, List, [], ◌∷◌, All, ℤ, pos, negsuc, if◌then◌else◌, ltb, Bool-cases, ap, ◌∙◌,
}
use chaosblade_operator.Api.{ChaosBlade, ClusterPhase, destroying, running}
use chaosblade_operator.Reconcile.Defs.{is_phase, is_some, chaosblade_finalizer}
use chaosblade_operator.Reconcile.CleanUp.{
  Cleaner, Exceeds, periodically_clean_up_blade, start_periodically_clean_up_blade, crashed,
  ticking,
}
use chaosblade_operator.Reconcile.Abandoned.{IsServer, is_abandoned, clean_up-get}

abbrev Store : Type 0
Store = Option ChaosBlade

abbrev get : String → Store → Option ChaosBlade
get n none = none
get n (some cb) = if cb.name == n then some cb else none

abbrev without_finalizers : ChaosBlade → Store
without_finalizers cb =
    if is_some cb.deletion_timestamp then none else some (record cb { finalizers = [] })

abbrev patch : String → Store → Store
patch n none = none
patch n (some cb) = if cb.name == n then without_finalizers cb else some cb

abbrev items : Store → List ChaosBlade
items none = []
items (some cb) = cb ∷ []

abbrev cleaner : Cleaner Store
cleaner = record { list = λ w. (items w, w); patch = patch }

patch_gone_lem : (n : String) (w : Store) → get n w ≡ none → get n (patch n w) ≡ none
patch_gone_lem n none h = refl
patch_gone_lem n (some cb) h = elim (Bool-cases (cb.name == n)) [
  | inl same ↦ absurd (ground arith)
  | inr differ ↦ rw (differ, patch) (rw (differ, get) refl)
]

abbrev is_deleted : Store → Bool
is_deleted none = false
is_deleted (some cb) = is_some cb.deletion_timestamp

patch_last_lem :
    (n : String) (w : Store) (cb : ChaosBlade)
    → get n w ≡ some cb
    → is_some cb.deletion_timestamp ≡ true
    → get n (patch n w) ≡ none
patch_last_lem n none cb h d = absurd (cc)
patch_last_lem n (some x) cb h d = elim (Bool-cases (x.name == n)) [
  | inl same ↦
      let e : some x ≡ some cb = subst (λ b. (if b then some x else none) ≡ some cb) same h in
      let deleted : is_some x.deletion_timestamp ≡ true = ap is_deleted e ∙ d in
      rw (same, patch)
        (ap (λ b. get n (if b then none else some (record x { finalizers = [] }))) deleted)
  | inr differ ↦ absurd (ground arith)
]

hidden :
    (m : String) (cb : ChaosBlade) (b : Bool)
    → (cb.name == m) ≡ false
    → get m (if b then none else some (record cb { finalizers = [] })) ≡ none
hidden m cb true e = refl
hidden m cb false e = ap (λ b. if b then some (record cb { finalizers = [] }) else none) e

patch_elsewhere_lem : (n m : String) (w : Store) → n ≢ m → get m (patch n w) ≡ get m w
patch_elsewhere_lem n m none h = refl
patch_elsewhere_lem n m (some cb) h = elim (Bool-cases (cb.name == n)) [
  | inl same ↦
      let other : (cb.name == m) ≡ false = ground (arith, eq_iff cb.name n, eq_iff cb.name m) in
      rw (same, patch) (rw other (hidden m cb (is_some cb.deletion_timestamp) other))
  | inr differ ↦ rw (differ, patch) refl
]

lists_stored_lem :
    (w : Store)
    → All
        (λ item.
          is_some item.deletion_timestamp ≡ true
          → (get item.name w ≡ none)
            ⊎ ((cb : ChaosBlade) × (get item.name w ≡ some cb)
                × (is_some cb.deletion_timestamp ≡ true)))
        (items w)
lists_stored_lem none = tt
lists_stored_lem (some cb) = (λ d. inr (cb, ground (arith, eq_iff cb.name cb.name), d), tt)

cleaner-IsServer : IsServer cleaner get
cleaner-IsServer = record {
  patch_gone = patch_gone_lem;
  patch_last = patch_last_lem;
  patch_elsewhere = patch_elsewhere_lem;
  list_reads = λ n w. refl;
  lists_stored = lists_stored_lem;
}

abbrev blade : ClusterPhase → ChaosBlade
blade phase = record {
  name = "b1";
  finalizers = chaosblade_finalizer ∷ "other" ∷ [];
  deletion_timestamp = some 100;
  annotations = [];
  spec = record { experiments = [] };
  status = record { phase = phase; exp_statuses = [] };
}

-- Times in seconds.
abbrev exceeds : Exceeds
exceeds now stamp (pos n) = ltb n (now - stamp)
exceeds now stamp (negsuc n) = true

abbrev is_old : ℕ → Bool
is_old stamp = ltb 60 (200 - stamp)

clean_up-get_example :
    get "b1"
      (periodically_clean_up_blade cleaner exceeds (λ i. 200) (pos 60) (some (blade destroying)))
    ≡ none
unfolding is_abandoned is_phase
clean_up-get_example =
    clean_up-get cleaner get cleaner-IsServer exceeds (λ i. 200) (pos 60) is_old (λ stamp i. refl)
      "b1" (some (blade destroying))

running_kept :
    periodically_clean_up_blade cleaner exceeds (λ i. 200) (pos 60) (some (blade running))
    ≡ some (blade running)
unfolding periodically_clean_up_blade
running_kept = refl

abbrev parse_duration : String → Option ℤ
parse_duration s = if s == "1m" then some (pos 60) else if s == "500ms" then some (pos 0) else none

-- An interval below one second makes the ticker panic; the first pass has been made.
short_interval :
    (start_periodically_clean_up_blade cleaner exceeds parse_duration
      (λ d. d)
      "500ms"
      (λ i. 200)
      []
      (some (blade destroying)))
    ≡ (crashed, none)
unfolding start_periodically_clean_up_blade
short_interval = refl

minute_interval :
    (start_periodically_clean_up_blade cleaner exceeds parse_duration
      (λ d. d)
      "1m"
      (λ i. 120)
      ((λ i. 150) ∷ (λ i. 180) ∷ [])
      (some (blade destroying)))
    ≡ (ticking, none)
unfolding start_periodically_clean_up_blade
minute_interval = refl
