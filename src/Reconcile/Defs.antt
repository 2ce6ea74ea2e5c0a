-- ===== src/Reconcile/Defs.antt =====
-- controller.go: the helpers on finalizers, the two loops over experiments, and `Reconcile`.
use chaosblade_operator.Base.{
  ℕ, zero, suc, ◌+◌, ◌-◌, String, ◌==◌, Bool, true, false, ◌||◌, Option, none, some, List, [], ◌∷◌,
  ◌++◌, length, get_elem?, take, drop, ltb, beq, if◌then◌else◌, index,
}
use chaosblade_operator.Api.{
  ClusterPhase, initial, initialized, running, updating, destroying, destroyed, error, other,
  ExperimentSpec, ChaosBladeSpec, ExperimentStatus, ChaosBlade, Message, Outcome, returns, panics,
}

-- The answer to a write: whether it succeeded, and the object as the client has it afterwards.
pub record Reply : Type 0 where
  pub ok : Bool
  pub object : ChaosBlade

-- The Kubernetes client. `get` is `none` where the read fails.
pub record Client (W : Type 0) : Type 0 where
  pub get : String → W → Option ChaosBlade
  pub update : ChaosBlade → W → Reply × W
  pub update_status : ChaosBlade → W → Reply × W

-- model.ExpController, the interface of the executor.
pub record ExpController (W : Type 0) : Type 0 where
  pub create : String → ExperimentSpec → W → ExperimentStatus × W
  pub destroy : String → ExperimentSpec → ExperimentStatus → W → ExperimentStatus × W

-- ReconcileChaosBlade, with json.Unmarshal of a spec.
pub record ReconcileChaosBlade (W : Type 0) : Type 0 where
  pub client : Client W
  pub executor : ExpController W
  pub unmarshal : String → Option ChaosBladeSpec

abbrev pub chaosblade_finalizer : String
chaosblade_finalizer = "finalizer.chaosblade.io"

-- reconcile.Result and the error beside it.
pub record Result : Type 0 where
  pub requeue : Bool
  pub err : Option Message

abbrev pub forget : Result
forget = record { requeue = false; err = none }

unfoldable pub contains : List String → String → Bool
contains [] s = false
contains (v ∷ vs) s = if v == s then true else contains vs s

-- The array after append(list[:i], list[i+1:]...), which writes in place.
abbrev pub shift_left : ℕ → List String → ℕ → List String
shift_left i arr len = take i arr ++ (take (len - (i + 1)) (drop (i + 1) arr) ++ drop (len - 1) arr)

-- The loop of `remove`. It ranges over the slice as it was at the start, whose array `arr` the
-- body overwrites; `len` is the length that `list` has by now. list[i+1:] panics past `len`.
unfoldable pub remove_loop : String → ℕ → ℕ → List String → ℕ → Outcome (List String)
remove_loop s zero i arr len = returns (take len arr)
remove_loop s (suc r) i arr len = elim (get_elem? arr i) [
  | none ↦ panics
  | some v ↦ elim (v == s) [
    | true ↦ elim (ltb len (i + 1)) [
      | true ↦ panics
      | false ↦ remove_loop s r (i + 1) (shift_left i arr len) (len - 1)
    ]
    | false ↦ remove_loop s r (i + 1) arr len
  ]
]

unfoldable pub remove : List String → String → Outcome (List String)
unfolding remove_loop
remove list s = remove_loop s (length list) 0 list (length list)

-- cb.Status.Phase == p, for a named phase p.
unfoldable pub is_phase : ClusterPhase → ClusterPhase → Bool
is_phase initial initial = true
is_phase initialized initialized = true
is_phase running running = true
is_phase updating updating = true
is_phase destroying destroying = true
is_phase destroyed destroyed = true
is_phase error error = true
is_phase (other a) (other b) = a == b
is_phase _ _ = false

abbrev pub is_some {ℓ} : {A : Type ℓ} → Option A → Bool
is_some none = false
is_some (some _) = true

-- cb with a phase and experiment statuses.
abbrev pub with_status : ChaosBlade → ClusterPhase → List ExperimentStatus → ChaosBlade
with_status cb phase sts = record cb { status = record { phase = phase; exp_statuses = sts } }

module _ {W : Type 0} (x : ExpController W) (name : String) where
  -- The loop over cb.Spec.Experiments that creates each one.
  unfoldable pub create_loop :
      List ExperimentSpec
      → ClusterPhase
      → List ExperimentStatus
      → W
      → (ClusterPhase × List ExperimentStatus) × W
  create_loop [] phase acc w = ((phase, acc), w)
  create_loop (exp ∷ exps) phase acc w =
      let (status, w') = x.create name exp w in
      create_loop exps (if status.success then running else phase) (acc ++ status ∷ []) w'

  -- The loop of `finalizeChaosBlade`: over the experiments, indexing the statuses.
  unfoldable pub finalize_loop :
      List ExperimentSpec
      → List ExperimentStatus
      → ClusterPhase
      → List ExperimentStatus
      → W
      → Outcome (ClusterPhase × List ExperimentStatus) × W
  finalize_loop [] sts phase acc w = (returns (phase, acc ++ sts), w)
  finalize_loop (exp ∷ exps) [] phase acc w = (panics, w)
  finalize_loop (exp ∷ exps) (old ∷ sts) phase acc w =
      let (status, w') = x.destroy name exp old w in
      finalize_loop exps sts (if status.success then phase else destroying) (acc ++ status ∷ []) w'

  -- The loop of the update: over the statuses, indexing the experiments of the old spec.
  unfoldable pub update_loop :
      List ExperimentStatus
      → List ExperimentSpec
      → ClusterPhase
      → List ExperimentStatus
      → W
      → Outcome (ClusterPhase × List ExperimentStatus) × W
  update_loop [] exps phase acc w = (returns (phase, acc), w)
  update_loop (old ∷ sts) [] phase acc w = (panics, w)
  update_loop (old ∷ sts) (exp ∷ exps) phase acc w =
      let (status, w') = x.destroy name exp old w in
      update_loop sts exps (if status.success then phase else destroying) (acc ++ status ∷ []) w'

module _ {W : Type 0} (r : ReconcileChaosBlade W) where
  abbrev pub store_status :
      ChaosBlade → Outcome (ClusterPhase × List ExperimentStatus) × W → Outcome Result × W
  store_status cb (panics, w) = (panics, w)
  store_status cb (returns (phase, sts), w) =
      (returns forget, (r.client.update_status (with_status cb phase sts) w).1)

  -- finalizeChaosBlade. Its error is only logged by the caller.
  unfoldable pub finalize_chaos_blade : ChaosBlade → W → Outcome Result × W
  unfolding finalize_loop
  finalize_chaos_blade cb w =
      let exps = cb.spec.experiments in
      let sts = cb.status.exp_statuses in
      store_status cb (
        if beq (length exps) (length sts)
        then finalize_loop r.executor cb.name exps sts destroyed [] w
        else (returns (destroyed, sts), w))

  -- The Destroyed phase.
  abbrev pub drop_finalizer : ChaosBlade → Outcome (List String) → W → Outcome Result × W
  drop_finalizer cb panics w = (panics, w)
  drop_finalizer cb (returns fs) w =
      (returns forget, (r.client.update (record cb { finalizers = fs }) w).1)

  -- The Initial phase.
  unfoldable pub initialize : ChaosBlade → W → Outcome Result × W
  unfolding contains
  initialize cb w =
      if contains cb.finalizers chaosblade_finalizer
      then (returns forget, (r.client.update_status (with_status cb initialized []) w).1)
      else (
        returns forget,
        (r.client.update (record cb { finalizers = cb.finalizers ++ chaosblade_finalizer ∷ [] })
            w).1,
      )

  -- The Initialized and Updating phases.
  unfoldable pub create_experiments : ChaosBlade → W → Outcome Result × W
  unfolding create_loop
  create_experiments cb w =
      let ((phase, sts), w') = create_loop r.executor cb.name cb.spec.experiments error [] w in
      (returns forget, (r.client.update_status (with_status cb phase sts) w').1)

  -- The update once the old spec is known. The client's answer to the write of the annotation
  -- replaces `cb`, whether the write failed or not.
  unfoldable pub destroy_old : ChaosBlade → ChaosBladeSpec → W → Outcome Result × W
  unfolding update_loop
  destroy_old cb old w =
      let (reply, w') = r.client.update cb w in
      let cb' = reply.object in
      store_status cb'
        (update_loop r.executor cb'.name cb'.status.exp_statuses old.experiments updating [] w')

  -- The Running and Error phases.
  unfoldable pub update_experiments : ChaosBlade → W → Outcome Result × W
  unfolding destroy_old
  update_experiments cb w =
      let pre = index cb.annotations "preSpec" in
      if pre == ""
      then (returns forget, w)
      else elim (r.unmarshal pre) [ none ↦ (returns forget, w) | some old ↦ destroy_old cb old w ]

  -- The chain of tests on the phase.
  unfoldable pub reconcile_phase : ChaosBlade → W → Outcome Result × W
  unfolding is_phase remove finalize_chaos_blade initialize create_experiments update_experiments
  reconcile_phase cb w =
      let phase = cb.status.phase in
      if is_phase phase destroyed
      then drop_finalizer cb (remove cb.finalizers chaosblade_finalizer) w
      else if is_phase phase destroying || is_some cb.deletion_timestamp
      then finalize_chaos_blade cb w
      else if is_phase phase initial
      then initialize cb w
      else if is_phase phase initialized || is_phase phase updating
      then create_experiments cb w
      else if is_phase phase running || is_phase phase error
      then update_experiments cb w
      else (returns forget, w)

  unfoldable pub reconcile : String → W → Outcome Result × W
  unfolding reconcile_phase
  reconcile name w = elim (r.client.get name w) [
    | none ↦ (returns forget, w)
    | some cb ↦ elim cb.spec.experiments [
      | [] ↦ (returns forget, w)
      | exp ∷ exps ↦ reconcile_phase cb w
    ]
  ]
