-- ===== src/HookFs/Faults.antt =====
-- What a stored fault does, and what the recovery leaves.
use chaosblade_operator.Base.{
  ℕ, zero, suc, ◌≤◌, ◌<◌, String, ◌==◌, ◌≡◌, ◌≢◌, ◌↔◌, ◌⊎◌, inl, inr, refl, eq_iff, Bool, true,
  false, ◌||◌, Option, none, some, List, [], ◌∷◌, if◌then◌else◌, arith, Bool-cases, Option-cases,
}
use chaosblade_operator.HookFs.Defs.{
  Runtime, InjectMessage, Cache, load, store, delete, store_each, delete_each, default_hook_points,
  inject_handler, recover_handler, covers, random_errno, spared, do_inject_fault, guard, guard_both,
  wait,
}

abbrev pub has : List String → String → Bool
has [] s = false
has (x ∷ xs) s = x == s || has xs s

load-delete :
    (cache : Cache) (m k : String)
    → load (delete cache m) k ≡ (if m == k then none else load cache k)
unfolding load delete
load-delete [] m k = ground arith
load-delete ((j, msg) ∷ cache) m k =
    ground (arith, eq_iff j m, eq_iff j k, eq_iff m k, load-delete cache m k)

load-delete_each :
    (ms : List String) (cache : Cache) (k : String)
    → load (delete_each ms cache) k ≡ (if has ms k then none else load cache k)
unfolding delete_each
load-delete_each [] cache k = refl
load-delete_each (m ∷ ms) cache k =
    ground (arith, load-delete cache m k, load-delete_each ms (delete cache m) k)

-- After a recovery exactly the methods that are no default hook point keep their faults.
pub load-recover_handler :
    (cache : Cache) (k : String)
    → load (recover_handler cache) k ≡ (if has default_hook_points k then none else load cache k)
unfolding recover_handler
load-recover_handler cache k = load-delete_each default_hook_points cache k

pub load-store_each :
    (ms : List String) (msg : InjectMessage) (cache : Cache) (k : String)
    → load (store_each ms msg cache) k ≡ (if has ms k then some msg else load cache k)
unfolding store_each load store
load-store_each [] msg cache k = refl
load-store_each (m ∷ ms) msg cache k = ground (arith, load-store_each ms msg (store cache m msg) k)

-- A message that decodes is stored for each of its methods and for no other; one that does not decode
-- changes nothing.
pub load-inject_handler :
    (decode : String → Option InjectMessage) (body : String) (cache : Cache) (k : String)
    → load (inject_handler decode body cache).1 k ≡ elim (decode body) [
      | none ↦ load cache k
      | some msg ↦ if has msg.methods k then some msg else load cache k
    ]
unfolding inject_handler
load-inject_handler decode body cache k = elim (Option-cases (decode body)) [
  | inl failed ↦ rw (failed, inject_handler)
  | inr (msg, e) ↦ rw (e, inject_handler) (load-store_each msg.methods msg cache k)
]

module _ {W : Type 0} (runtime : Runtime W) (mount_point : String) where
  -- After a recovery a hook whose method is a default hook point injects nothing, sleeps not and
  -- draws no random number; on any other method the hooks go on as before the recovery.
  pub do_inject_fault-recover_handler :
      (cache : Cache) (path method : String) (w : W)
      → do_inject_fault runtime mount_point (recover_handler cache) path method w ≡ (
          if has default_hook_points method
          then (none, w)
          else do_inject_fault runtime mount_point cache path method w)
  unfolding do_inject_fault
  do_inject_fault-recover_handler cache path method w =
      elim (Bool-cases (has default_hook_points method)) [
        | inl known ↦ rw (load-recover_handler, known, do_inject_fault)
        | inr unknown ↦ rw (load-recover_handler, unknown, do_inject_fault)
      ]

  -- A method without a stored fault, and a path that the rule does not cover, are left alone.
  pub do_inject_fault_elsewhere :
      (cache : Cache) (path method : String) (w : W)
      → ((load cache method ≡ none)
          ⊎ ((msg : InjectMessage) × (load cache method ≡ some msg)
              × (covers mount_point path msg.path ≡ false)))
      → do_inject_fault runtime mount_point cache path method w ≡ (none, w)
  unfolding do_inject_fault
  do_inject_fault_elsewhere cache path method w (inl missing) = rw (missing, do_inject_fault)
  do_inject_fault_elsewhere cache path method w (inr (msg, found, outside)) =
      rw (found, outside, do_inject_fault)

  -- A fault on every call: where a rule covers the path, has no percentage and names an errno, the
  -- hook fails with that errno after the delay.
  pub do_inject_fault_always :
      (cache : Cache) (path method : String) (w : W) (msg : InjectMessage)
      → load cache method ≡ some msg
      → covers mount_point path msg.path ≡ true
      → msg.percent ≡ 0
      → msg.errno ≢ 0
      → do_inject_fault runtime mount_point cache path method w
        ≡ (some msg.errno, wait runtime msg.delay w)
  unfolding do_inject_fault
  do_inject_fault_always cache path method w msg found inside every named =
      rw (found, inside, every, do_inject_fault) (ground arith)

  -- A hook answers the call itself exactly if it has an error to answer with.
  pub guard_handled_iff :
      (cache : Cache) (path method : String) (w : W)
      → ((guard runtime mount_point cache path method w).0.0 ≡ true)
        ↔ ((guard runtime mount_point cache path method w).0.1 ≢ none)
  unfolding guard
  guard_handled_iff cache path method w = (λ e. ground arith, λ e. ground arith)

  -- Renaming, linking and a symbolic link: the second path is tried only if the first has no fault.
  pub guard_both_lem :
      (cache : Cache) (old_path new_path method : String) (w : W)
      → let ((first, err), w') = guard runtime mount_point cache old_path method w in
        guard_both runtime mount_point cache old_path new_path method w
        ≡ (if first then ((true, err), w') else guard runtime mount_point cache new_path method w')
  unfolding guard_both
  guard_both_lem cache old_path new_path method w = ground arith

-- What rand.Intn documents.
abbrev pub IsIntn : {W : Type 0} → Runtime W → Type 0
IsIntn {W} runtime = (n : ℕ) (w : W) → 0 < n → (runtime.intn n w).0 < n

module _ {W : Type 0} (runtime : Runtime W) (bounded : IsIntn runtime) where
  -- A random errno is from E2BIG (7) to 53, one below EXFULL.
  pub random_errno_range :
      (w : W) → (7 ≤ (random_errno runtime w).0) × ((random_errno runtime w).0 < 54)
  unfolding random_errno
  random_errno_range w = (omega arith, omega (arith, bounded 47 w (omega arith)))

  -- If rand.Intn(n) is below n: a percentage of 99 spares no call, and neither does a greater one
  -- or the percentage 0, which stands for none.
  pub spared_never :
      (percent : ℕ) (w : W) → (percent ≡ 0) ⊎ (99 ≤ percent) → (spared runtime percent w).0 ≡ false
  unfolding spared
  spared_never zero w h = refl
  spared_never (suc p) w h = ground (arith, bounded 99 w (omega arith))
