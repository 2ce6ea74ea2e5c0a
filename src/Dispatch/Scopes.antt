-- ===== src/Dispatch/Scopes.antt =====
-- Which controller an experiment reaches, and what becomes of one whose scope has none.
use chaosblade_operator.Base.{
  String, ◌==◌, ◌≡◌, ◌≢◌, inr, refl, sym, ap, ◌++◌, ◌∙◌, true, false, some, none, Option, List, [],
  ◌∷◌, arith, eq_iff, length, All, if◌then◌else◌,
}
use chaosblade_operator.Api.{
  ExperimentSpec, ExperimentStatus, ChaosBladeSpec, ChaosBlade, destroying, destroyed, returns,
}
use chaosblade_operator.Reconcile.{Client, forget, reconcile, with_status, is_some}
use chaosblade_operator.Reconcile.Loops.{any_success, all_success, create_each, destroy_each}
use chaosblade_operator.Reconcile.Phases.{reconcile_finalizes}
use chaosblade_operator.Dispatch.Defs.{
  ExperimentController, Controllers, controller_of, put, new_dispatcher_executor, dispatcher,
}

module _ {W : Type 0} where
  controller_of-put :
      (e : Controllers W) (n m : String) (c : ExperimentController W)
      → controller_of (put e n c) m ≡ (if n == m then some c else controller_of e m)
  unfolding controller_of put
  controller_of-put [] n m c = refl
  controller_of-put ((k, d) ∷ e) n m c =
      ground (arith, eq_iff k n, eq_iff k m, eq_iff n m, controller_of-put e n m c)

  -- The executor knows exactly the names of its three controllers; where two have one name the later
  -- of node, pod and container is meant.
  pub controller_of-new :
      (node pod container : ExperimentController W) (scope : String)
      → controller_of (new_dispatcher_executor node pod container) scope ≡ (
          if container.name == scope
          then some container
          else if pod.name == scope
          then some pod
          else if node.name == scope
          then some node
          else none)
  unfolding new_dispatcher_executor
  controller_of-new node pod container scope = simp controller_of-put (unfold controller_of in refl)

  module _ (e : Controllers W) where
    abbrev pub IsUnknown : ExperimentSpec → Type 0
    IsUnknown exp = controller_of e exp.scope ≡ none

    create_unknown :
        (name : String) (exp : ExperimentSpec) (w : W)
        → IsUnknown exp
        → (((dispatcher e).create name exp w).0.success ≡ false)
          × (((dispatcher e).create name exp w).1 ≡ w)
    unfolding dispatcher
    create_unknown name exp w h = ground arith

    destroy_unknown :
        (name : String) (exp : ExperimentSpec) (old : ExperimentStatus) (w : W)
        → IsUnknown exp
        → ((dispatcher e).destroy name exp old w).0.success ≡ false
    unfolding dispatcher
    destroy_unknown name exp old w h = ground arith

    -- If no experiment has a known scope then no creation succeeds and no controller is called.
    pub unknown_never_created :
        (name : String) (exps : List ExperimentSpec) (w : W)
        → All IsUnknown exps
        → let (sts, w') = create_each (dispatcher e) name exps w in
          (any_success sts ≡ false) × (w' ≡ w)
    unfolding create_each any_success
    unknown_never_created name [] w h = (refl, refl)
    unknown_never_created name (exp ∷ exps) w h =
        let (failed, same) = create_unknown name exp w h.0 in
        rw (failed, same) (unknown_never_created name exps w h.1)

    unknown_never_destroyed :
        (name : String) (pre post : List ExperimentSpec) (exp : ExperimentSpec)
        (sts : List ExperimentStatus) (w : W)
        → IsUnknown exp
        → length (pre ++ exp ∷ post) ≡ length sts
        → all_success (destroy_each (dispatcher e) name (pre ++ exp ∷ post) sts w).0 ≡ false
    unfolding destroy_each all_success
    unknown_never_destroyed name [] post exp [] w h same = absurd (omega arith)
    unknown_never_destroyed name [] post exp (old ∷ sts) w h same =
        rw (destroy_unknown name exp old w h)
    unknown_never_destroyed name (p ∷ pre) post exp [] w h same = absurd (omega arith)
    unknown_never_destroyed name (p ∷ pre) post exp (old ∷ sts) w h same = ground (
      arith,
      unknown_never_destroyed name pre post exp sts ((dispatcher e).destroy name p old w).1 h,
    )

    -- A stored resource under deletion, not yet in phase Destroyed, with as many statuses as
    -- experiments, one of whose experiments has an unknown scope, is written as Destroying by the
    -- reconciler, whatever the controllers answer.
    pub unknown_scope_blocks :
        (client : Client W) (unmarshal : String → Option ChaosBladeSpec) (w : W) (cb : ChaosBlade)
        (pre post : List ExperimentSpec) (exp : ExperimentSpec)
        → client.get cb.name w ≡ some cb
        → cb.spec.experiments ≡ pre ++ exp ∷ post
        → IsUnknown exp
        → is_some cb.deletion_timestamp ≡ true
        → cb.status.phase ≢ destroyed
        → length cb.spec.experiments ≡ length cb.status.exp_statuses
        → let (sts, w') =
            destroy_each (dispatcher e) cb.name cb.spec.experiments cb.status.exp_statuses w in
          reconcile
            (record { client = client; executor = dispatcher e; unmarshal = unmarshal })
            cb.name
            w
          ≡ (returns forget, (client.update_status (with_status cb destroying sts) w').1)
    unknown_scope_blocks client unmarshal w cb pre post exp found split unknown doomed pending
          same =
        reconcile_finalizes
          (record { client = client; executor = dispatcher e; unmarshal = unmarshal }) w cb found
          (λ none_left. nonempty pre (sym split ∙ none_left)) (inr doomed) pending same
        ∙ rw blocked
      where
        nonempty : (pre : List ExperimentSpec) → pre ++ exp ∷ post ≢ []
        nonempty [] h = cc
        nonempty (p ∷ pre) h = cc

        blocked :
            all_success
              (destroy_each (dispatcher e) cb.name cb.spec.experiments cb.status.exp_statuses w).0
            ≡ false
        blocked = rw split (
            unknown_never_destroyed cb.name pre post exp cb.status.exp_statuses w unknown
              (ap length (sym split) ∙ same))
