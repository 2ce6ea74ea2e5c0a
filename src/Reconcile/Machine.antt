-- ===== src/Reconcile/Machine.antt =====
-- The phases as an abstract machine, and the effects that a reconciliation may have on the world.
use chaosblade_operator.Base.{
  String, ◌≡◌, ◌≢◌, ◌⊎◌, Bool, true, false, List, [], ◌∷◌, if◌then◌else◌,
}
use chaosblade_operator.Api.{
  ClusterPhase, initial, initialized, running, updating, destroying, destroyed, error,
  ExperimentSpec, ExperimentStatus, ChaosBlade, Outcome, returns, panics,
}
use chaosblade_operator.Reconcile.Defs.{
  ReconcileChaosBlade, create_loop, finalize_loop, update_loop,
}

-- The phases in which experiments are created.
abbrev pub IsReady : ClusterPhase → Type 0
IsReady p = (p ≡ initialized) ⊎ (p ≡ updating)

-- The phase machine.
pub data Edge : ClusterPhase → ClusterPhase → Type 0 where
  begins : {p : ClusterPhase} → p ≡ initial → Edge p initialized
  starts : {p : ClusterPhase} → IsReady p → Edge p running
  fails : {p : ClusterPhase} → IsReady p → Edge p error
  updates : {p : ClusterPhase} → (p ≡ running) ⊎ (p ≡ error) → Edge p updating
  withdraws : {p : ClusterPhase} → p ≢ destroyed → Edge p destroying
  finishes : {p : ClusterPhase} → p ≢ destroyed → Edge p destroyed

-- An outcome whose phase, if there is one, is along an edge.
unfoldable pub Ends : ClusterPhase → Outcome (ClusterPhase × List ExperimentStatus) → Type 0
Ends p panics = Unit
Ends p (returns (q, sts)) = Edge p q

module _ {W : Type 0} (r : ReconcileChaosBlade W) where
  -- What a reconciliation that reads the phase `p` may do: call the executor and write the object any
  -- number of times, and write the status at most once, at the end, along an edge from `p`.
  pub data Effects (p : ClusterPhase) : W → W → Type 0 where
    stops : {w : W} → Effects p w w
    creates :
        {w w' : W} (name : String) (exp : ExperimentSpec)
        → IsReady p
        → Effects p (r.executor.create name exp w).1 w'
        → Effects p w w'
    destroys :
        {w w' : W} (name : String) (exp : ExperimentSpec) (old : ExperimentStatus)
        → p ≢ destroyed
        → Effects p (r.executor.destroy name exp old w).1 w'
        → Effects p w w'
    writes : {w w' : W} (cb : ChaosBlade) → Effects p (r.client.update cb w).1 w' → Effects p w w'
    moves :
        {w : W} (cb : ChaosBlade)
        → Edge p cb.status.phase
        → Effects p w (r.client.update_status cb w).1

  if_Edge : {p q q' : ClusterPhase} (b : Bool) → Edge p q → Edge p q' → Edge p (if b then q else q')
  if_Edge true e e' = e
  if_Edge false e e' = e'

  module _ {p : ClusterPhase} where
    pub create_loop-Effects :
        {w' : W} (ready : IsReady p) (name : String) (exps : List ExperimentSpec)
        (phase : ClusterPhase) (acc : List ExperimentStatus) (w : W)
        → Effects p (create_loop r.executor name exps phase acc w).1 w'
        → Effects p w w'
    unfolding create_loop
    create_loop-Effects ready name [] phase acc w rest = rest
    create_loop-Effects ready name (exp ∷ exps) phase acc w rest =
        creates name exp ready (create_loop-Effects ready name exps _ _ _ rest)

    pub create_loop-Edge :
        (ready : IsReady p) (name : String) (exps : List ExperimentSpec) (phase : ClusterPhase)
        (acc : List ExperimentStatus) (w : W)
        → Edge p phase
        → Edge p (create_loop r.executor name exps phase acc w).0.0
    unfolding create_loop
    create_loop-Edge ready name [] phase acc w e = e
    create_loop-Edge ready name (exp ∷ exps) phase acc w e =
        create_loop-Edge ready name exps _ _ _ (if_Edge _ (starts ready) e)

    module _ (alive : p ≢ destroyed) (name : String) where
      pub finalize_loop-Effects :
          {w' : W} (exps : List ExperimentSpec) (sts : List ExperimentStatus) (phase : ClusterPhase)
          (acc : List ExperimentStatus) (w : W)
          → Effects p (finalize_loop r.executor name exps sts phase acc w).1 w'
          → Effects p w w'
      unfolding finalize_loop
      finalize_loop-Effects [] sts phase acc w rest = rest
      finalize_loop-Effects (exp ∷ exps) [] phase acc w rest = rest
      finalize_loop-Effects (exp ∷ exps) (old ∷ sts) phase acc w rest =
          destroys name exp old alive (finalize_loop-Effects exps sts _ _ _ rest)

      pub finalize_loop-Ends :
          (exps : List ExperimentSpec) (sts : List ExperimentStatus) (phase : ClusterPhase)
          (acc : List ExperimentStatus) (w : W)
          → Edge p phase
          → Ends p (finalize_loop r.executor name exps sts phase acc w).0
      unfolding finalize_loop Ends
      finalize_loop-Ends [] sts phase acc w e = e
      finalize_loop-Ends (exp ∷ exps) [] phase acc w e = tt
      finalize_loop-Ends (exp ∷ exps) (old ∷ sts) phase acc w e =
          finalize_loop-Ends exps sts _ _ _ (if_Edge _ e (withdraws alive))

      pub update_loop-Effects :
          {w' : W} (sts : List ExperimentStatus) (exps : List ExperimentSpec) (phase : ClusterPhase)
          (acc : List ExperimentStatus) (w : W)
          → Effects p (update_loop r.executor name sts exps phase acc w).1 w'
          → Effects p w w'
      unfolding update_loop
      update_loop-Effects [] exps phase acc w rest = rest
      update_loop-Effects (old ∷ sts) [] phase acc w rest = rest
      update_loop-Effects (old ∷ sts) (exp ∷ exps) phase acc w rest =
          destroys name exp old alive (update_loop-Effects sts exps _ _ _ rest)

      pub update_loop-Ends :
          (sts : List ExperimentStatus) (exps : List ExperimentSpec) (phase : ClusterPhase)
          (acc : List ExperimentStatus) (w : W)
          → Edge p phase
          → Ends p (update_loop r.executor name sts exps phase acc w).0
      unfolding update_loop Ends
      update_loop-Ends [] exps phase acc w e = e
      update_loop-Ends (old ∷ sts) [] phase acc w e = tt
      update_loop-Ends (old ∷ sts) (exp ∷ exps) phase acc w e =
          update_loop-Ends sts exps _ _ _ (if_Edge _ e (withdraws alive))
