-- ===== src/Reconcile/Loops.antt =====
-- The loops of the reconciler against the executor's answers in order.
use chaosblade_operator.Base.{
  suc, ◌≤◌, ◌<◌, String, ◌≡◌, refl, ap, ◌∙◌, Bool, true, false, ◌&&◌, ◌||◌, List, [], ◌∷◌, ◌++◌,
  append-nil, append_assoc, arith, length, if◌then◌else◌,
}
use chaosblade_operator.Api.{
  ClusterPhase, running, destroying, ExperimentSpec, ExperimentStatus, returns, panics,
}
use chaosblade_operator.Reconcile.Defs.{ExpController, create_loop, finalize_loop, update_loop}

unfoldable pub any_success : List ExperimentStatus → Bool
any_success [] = false
any_success (s ∷ ss) = s.success || any_success ss

unfoldable pub all_success : List ExperimentStatus → Bool
all_success [] = true
all_success (s ∷ ss) = s.success && all_success ss

module _ {W : Type 0} (x : ExpController W) (name : String) where
  -- Every experiment is created once, in order.
  unfoldable pub create_each : List ExperimentSpec → W → List ExperimentStatus × W
  create_each [] w = ([], w)
  create_each (exp ∷ exps) w =
      let (status, w') = x.create name exp w in
      let (rest, w'') = create_each exps w' in (status ∷ rest, w'')

  -- Every experiment is destroyed once, in order, with the status that it had.
  unfoldable pub destroy_each :
      List ExperimentSpec → List ExperimentStatus → W → List ExperimentStatus × W
  destroy_each (exp ∷ exps) (old ∷ sts) w =
      let (status, w') = x.destroy name exp old w in
      let (rest, w'') = destroy_each exps sts w' in (status ∷ rest, w'')
  destroy_each exps sts w = ([], w)

  pub length-create_each :
      (exps : List ExperimentSpec) (w : W) → length (create_each exps w).0 ≡ length exps
  unfolding create_each
  length-create_each [] w = refl
  length-create_each (exp ∷ exps) w = ap suc (length-create_each exps (x.create name exp w).1)

  pub create_loop_lem :
      (exps : List ExperimentSpec) (phase : ClusterPhase) (acc : List ExperimentStatus) (w : W)
      → create_loop x name exps phase acc w ≡ (
        (
          if any_success (create_each exps w).0 then running else phase,
          acc ++ (create_each exps w).0,
        ),
        (create_each exps w).1,
      )
  unfolding create_loop create_each any_success
  create_loop_lem [] phase acc w = simp append-nil
  create_loop_lem (exp ∷ exps) phase acc w =
      let (status, w') = x.create name exp w in
      create_loop_lem exps (if status.success then running else phase) (acc ++ status ∷ []) w'
      ∙ simp append_assoc (ground arith)

  pub finalize_loop_lem :
      (exps : List ExperimentSpec) (sts : List ExperimentStatus) (phase : ClusterPhase)
      (acc : List ExperimentStatus) (w : W)
      → length exps ≡ length sts
      → finalize_loop x name exps sts phase acc w ≡ (
        returns (
          if all_success (destroy_each exps sts w).0 then phase else destroying,
          acc ++ (destroy_each exps sts w).0,
        ),
        (destroy_each exps sts w).1,
      )
  unfolding finalize_loop destroy_each all_success
  finalize_loop_lem [] [] phase acc w e = refl
  finalize_loop_lem [] (old ∷ sts) phase acc w e = absurd (omega arith)
  finalize_loop_lem (exp ∷ exps) [] phase acc w e = absurd (omega arith)
  finalize_loop_lem (exp ∷ exps) (old ∷ sts) phase acc w e =
      let (status, w') = x.destroy name exp old w in
      finalize_loop_lem exps sts (if status.success then phase else destroying) (acc ++ status ∷ [])
        w' (omega arith)
      ∙ simp append_assoc (ground arith)

  pub update_loop_lem :
      (sts : List ExperimentStatus) (exps : List ExperimentSpec) (phase : ClusterPhase)
      (acc : List ExperimentStatus) (w : W)
      → length sts ≤ length exps
      → update_loop x name sts exps phase acc w ≡ (
        returns (
          if all_success (destroy_each exps sts w).0 then phase else destroying,
          acc ++ (destroy_each exps sts w).0,
        ),
        (destroy_each exps sts w).1,
      )
  unfolding update_loop destroy_each all_success
  update_loop_lem [] [] phase acc w e = simp append-nil
  update_loop_lem [] (exp ∷ exps) phase acc w e = simp append-nil
  update_loop_lem (old ∷ sts) [] phase acc w e = absurd (omega arith)
  update_loop_lem (old ∷ sts) (exp ∷ exps) phase acc w e =
      let (status, w') = x.destroy name exp old w in
      update_loop_lem sts exps (if status.success then phase else destroying) (acc ++ status ∷ [])
        w' (omega arith)
      ∙ simp append_assoc (ground arith)

  -- With more statuses than experiments the index runs out of the old spec.
  pub update_loop_panics :
      (sts : List ExperimentStatus) (exps : List ExperimentSpec) (phase : ClusterPhase)
      (acc : List ExperimentStatus) (w : W)
      → length exps < length sts
      → (update_loop x name sts exps phase acc w).0 ≡ panics
  unfolding update_loop
  update_loop_panics [] exps phase acc w e = elim e [ ]
  update_loop_panics (old ∷ sts) [] phase acc w e = refl
  update_loop_panics (old ∷ sts) (exp ∷ exps) phase acc w e =
      let (status, w') = x.destroy name exp old w in
      update_loop_panics sts exps (if status.success then phase else destroying)
        (acc ++ status ∷ []) w' (omega arith)
