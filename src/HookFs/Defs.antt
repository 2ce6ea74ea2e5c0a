-- ===== src/HookFs/Defs.antt =====
-- hook.go, server.go and types.go of pkg/hookfs. The random source and the clock are a parameter;
-- the cache is an association list.
use chaosblade_operator.Base.{
  ℕ, zero, suc, ◌+◌, ◌-◌, String, ◌==◌, Bool, true, false, ◌||◌, not, Option, none, some, List, [],
  ◌∷◌, beq, ltb, if◌then◌else◌, has_prefix, path_join,
}

-- math/rand.Intn and time.Sleep (in milliseconds) over a state `W`.
pub record Runtime (W : Type 0) : Type 0 where
  pub intn : ℕ → W → ℕ × W
  pub sleep : ℕ → W → W

pub record InjectMessage : Type 0 where
  pub methods : List String
  pub path : String
  pub delay : ℕ
  pub percent : ℕ
  pub random : Bool
  pub errno : ℕ

-- injectFaultCache.
abbrev pub Cache : Type 0
Cache = List (String × InjectMessage)

unfoldable pub load : Cache → String → Option InjectMessage
load [] method = none
load ((m, msg) ∷ cache) method = if m == method then some msg else load cache method

-- The entry that is stored last is found first.
unfoldable pub store : Cache → String → InjectMessage → Cache
store cache method msg = (method, msg) ∷ cache

unfoldable pub delete : Cache → String → Cache
delete [] method = []
delete ((m, msg) ∷ cache) method =
    let rest = delete cache method in if m == method then rest else (m, msg) ∷ rest

unfoldable pub store_each : List String → InjectMessage → Cache → Cache
unfolding store
store_each [] msg cache = cache
store_each (m ∷ ms) msg cache = store_each ms msg (store cache m msg)

unfoldable pub delete_each : List String → Cache → Cache
unfolding delete
delete_each [] cache = cache
delete_each (m ∷ ms) cache = delete_each ms (delete cache m)

abbrev pub default_hook_points : List String
default_hook_points =
    "read" ∷ "write" ∷ "mkdir" ∷ "rmdir" ∷ "opendir" ∷ "fsync" ∷ "flush" ∷ "release" ∷ "truncate"
    ∷ "getattr" ∷ "chown" ∷ "utimens" ∷ "allocate" ∷ "getlk" ∷ "setlk" ∷ "setlkw" ∷ "statfs"
    ∷ "readlink" ∷ "symlink" ∷ "create" ∷ "access" ∷ "link" ∷ "mknod" ∷ "rename" ∷ "unlink"
    ∷ "getxattr" ∷ "listxattr" ∷ "removexattr" ∷ "setxattr" ∷ []

-- InjectHandler; `decode` is the JSON decoder, and the Boolean says whether the answer is "success".
unfoldable pub inject_handler : (String → Option InjectMessage) → String → Cache → Bool × Cache
unfolding store_each
inject_handler decode body cache = elim (decode body) [
  | none ↦ (false, cache)
  | some msg ↦ (true, store_each msg.methods msg cache)
]

-- RecoverHandler.
unfoldable pub recover_handler : Cache → Cache
unfolding delete_each
recover_handler cache = delete_each default_hook_points cache

-- The test on the path of a rule.
unfoldable pub covers : String → String → String → Bool
unfolding path_join has_prefix
covers mount_point relative_path rule =
    rule == "" || has_prefix (path_join mount_point relative_path) rule

module _ {W : Type 0} (runtime : Runtime W) where
  open runtime use {intn, sleep}

  unfoldable pub random_errno : W → ℕ × W
  random_errno w = let (n, w') = intn (54 - 7) w in (n + 7, w')

  unfoldable pub probab : ℕ → W → Bool × W
  probab percentage w = let (n, w') = intn 99 w in (ltb n percentage, w')

  -- faultMsg.Percent > 0 && !probab(faultMsg.Percent)
  unfoldable pub spared : ℕ → W → Bool × W
  unfolding probab
  spared zero w = (false, w)
  spared (suc p) w = let (hit, w') = probab (suc p) w in (not hit, w')

  unfoldable pub fault_errno : InjectMessage → W → Option ℕ × W
  unfolding random_errno
  fault_errno msg w = elim (beq msg.errno 0) [
    | false ↦ (some msg.errno, w)
    | true ↦ elim msg.random [
      | true ↦ let (n, w') = random_errno w in (some n, w')
      | false ↦ (none, w)
    ]
  ]

  abbrev pub wait : ℕ → W → W
  wait zero w = w
  wait (suc n) w = sleep (suc n) w

  -- What follows the tests.
  unfoldable pub inject : InjectMessage → W → Option ℕ × W
  unfolding fault_errno
  inject msg w = let (err, w') = fault_errno msg w in (err, wait msg.delay w')

  module _ (mount_point : String) (cache : Cache) where
    -- doInjectFault; the error is the number of an errno.
    unfoldable pub do_inject_fault : String → String → W → Option ℕ × W
    unfolding load covers spared inject
    do_inject_fault relative_path method w = elim (load cache method) [
      | none ↦ (none, w)
      | some msg ↦ elim (covers mount_point relative_path msg.path) [
        | false ↦ (none, w)
        | true ↦
            let (spare, w') = spared msg.percent w in
            elim spare [ true ↦ (none, w') | false ↦ inject msg w' ]
      ]
    ]

    -- The hooks of one path: whether the call is answered by the hook, and the error.
    unfoldable pub guard : String → String → W → (Bool × Option ℕ) × W
    unfolding do_inject_fault
    guard path method w =
        let (err, w') = do_inject_fault path method w in
        elim err [ none ↦ ((false, none), w') | some n ↦ ((true, some n), w') ]

    -- The hooks of two paths.
    unfoldable pub guard_both : String → String → String → W → (Bool × Option ℕ) × W
    unfolding guard
    guard_both old_path new_path method w =
        let ((handled, err), w') = guard old_path method w in
        elim handled [ true ↦ ((true, err), w') | false ↦ guard new_path method w' ]
