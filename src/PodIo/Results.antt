-- ===== src/PodIo/Results.antt =====
-- What the destruction of the I/O experiment reports.
use chaosblade_operator.Base.{
  String, ◌≡◌, ap, ap₂, ◌∙◌, sym, append-nil, inl, inr, refl, true, false, Option, none, some, List,
  [], ◌∷◌, ◌++◌, All, ◌⊎◌, Option-cases, Bool-cases,
}
use chaosblade_operator.Api.{
  ResourceStatus, ExperimentStatus, Response, create_fail_resource_status,
  create_destroyed_experiment_status,
}
use chaosblade_operator.Model.Identifier.{ContainerObjectMeta, get_identifier}
use chaosblade_operator.HookFs.Defs.{InjectMessage}
use chaosblade_operator.HookFs.Client.{Http, revoke}
use chaosblade_operator.Pods.Defs.{Client, Pod, Read, found, not_read, pod_status, is_pod_ready}
use chaosblade_operator.PodIo.Defs.{
  get_chaosfs_client, revoked, destroy_read, destroy_one, destroy_loop, destroy,
}

abbrev pub IsFailure : ResourceStatus → Type 0
IsFailure s = s.success ≡ false

All-append {ℓ κ} :
    {A : Type ℓ} (P : A → Type κ) (xs ys : List A) → All P xs → All P ys → All P (xs ++ ys)
All-append P [] ys h k = k
All-append P (x ∷ xs) ys h k = (h.0, All-append P xs ys h.1 k)

module _ {W : Type 0} (client : Client W) (http : Http W)
    (marshal : InjectMessage → String ⊎ String) where
  revoked-IsFailure :
      (s : ResourceStatus) (pod : Pod) (p : Option String × W)
      → All IsFailure (revoked client http marshal s pod p).0
  unfolding create_fail_resource_status
  revoked-IsFailure s pod (none, w) = tt
  revoked-IsFailure s pod (some err, w) = (refl, tt)

  destroy_read-IsFailure :
      (s : ResourceStatus) (r : Read × W) → All IsFailure (destroy_read client http marshal s r).0
  unfolding create_fail_resource_status
  destroy_read-IsFailure s (not_read err, w) = tt
  destroy_read-IsFailure s (found pod, w) = elim (Bool-cases (is_pod_ready pod)) [
    | inr unready ↦ rw (unready, destroy_read) tt
    | inl ready ↦ elim (Option-cases (get_chaosfs_client pod)) [
      | inl closed ↦ rw (ready, closed, destroy_read) (refl, tt)
      | inr (addr, open_one) ↦
          rw (ready, open_one, destroy_read) (revoked-IsFailure s pod (revoke http addr w))
    ]
  ]

  destroy_loop-IsFailure :
      (cs : List ContainerObjectMeta) (acc : List ResourceStatus) (w : W)
      → All IsFailure acc
      → All IsFailure (destroy_loop client http marshal cs acc w).0
  unfolding destroy_loop destroy_one
  destroy_loop-IsFailure [] acc w h = h
  destroy_loop-IsFailure (c ∷ cs) acc w h =
      destroy_loop-IsFailure cs (acc ++ (destroy_one client http marshal c w).0)
        (destroy_one client http marshal c w).1
        (All-append IsFailure acc _ h (destroy_read-IsFailure _ _))

  -- The pod of a container that cannot be read, or is found not ready; reading it changes nothing.
  unfoldable pub IsSilent : ContainerObjectMeta → Type 0
  IsSilent c =
      (w : W)
      → ((client.get c.namespace c.pod_name w).1 ≡ w)
        × (((err : String) × ((client.get c.namespace c.pod_name w).0 ≡ not_read err))
            ⊎ ((pod : Pod) × ((client.get c.namespace c.pod_name w).0 ≡ found pod)
                × (is_pod_ready pod ≡ false)))

  destroy_one-IsSilent :
      (c : ContainerObjectMeta) (w : W) → IsSilent c → destroy_one client http marshal c w ≡ ([], w)
  unfolding destroy_one IsSilent
  destroy_one-IsSilent c w silent =
      read (pod_status "" (get_identifier c)) (client.get c.namespace c.pod_name w) (silent w)
    where
      unready_lem :
          (s : ResourceStatus) (pod : Pod)
          → is_pod_ready pod ≡ false
          → destroy_read client http marshal s (found pod, w) ≡ ([], w)
      unready_lem s pod unready = rw (unready, destroy_read) refl

      read :
          (s : ResourceStatus) (p : Read × W)
          → (p.1 ≡ w)
            × (((err : String) × (p.0 ≡ not_read err))
                ⊎ ((pod : Pod) × (p.0 ≡ found pod) × (is_pod_ready pod ≡ false)))
          → destroy_read client http marshal s p ≡ ([], w)
      read s p (same, inl (err, e)) = ap₂ (λ a b. destroy_read client http marshal s (a, b)) e same
      read s p (same, inr (pod, e, unready)) =
          ap₂ (λ a b. destroy_read client http marshal s (a, b)) e same ∙ unready_lem s pod unready

  destroy_loop-append :
      (xs ys : List ContainerObjectMeta) (acc : List ResourceStatus) (w : W)
      → destroy_loop client http marshal (xs ++ ys) acc w ≡ (
          let (sts, w') = destroy_loop client http marshal xs acc w in
          destroy_loop client http marshal ys sts w')
  unfolding destroy_loop
  destroy_loop-append [] ys acc w = refl
  destroy_loop-append (x ∷ xs) ys acc w = destroy_loop-append xs ys _ _

  silent_dropped :
      (before after : List ContainerObjectMeta) (c : ContainerObjectMeta) (w : W)
      → IsSilent c
      → destroy_loop client http marshal (before ++ c ∷ after) [] w
        ≡ destroy_loop client http marshal (before ++ after) [] w
  unfolding destroy_loop
  silent_dropped before after c w silent =
      let (sts, w') = destroy_loop client http marshal before [] w in
      destroy_loop-append before (c ∷ after) [] w
      ∙ ap (λ p. destroy_loop client http marshal after (sts ++ p.0) p.1)
          (destroy_one-IsSilent c w' silent)
      ∙ ap (λ l. destroy_loop client http marshal after l w') (append-nil sts)
      ∙ sym (destroy_loop-append before after [] w)

  -- A container whose pod cannot be read or is not ready is passed over: destroying the experiment
  -- with it among the containers does, and answers, what it does without it. And the answer is a
  -- success, whatever becomes of the other pods, in which every status is a failure.
  pub destroy_blind :
      (return_result : ExperimentStatus → Response) (before after : List ContainerObjectMeta)
      (c : ContainerObjectMeta) (w : W)
      → IsSilent c
      → (destroy client http marshal return_result (some (before ++ c ∷ after)) w
          ≡ destroy client http marshal return_result (some (before ++ after)) w)
        × ((e : ExperimentStatus) × ((destroy client http marshal return_result
                (some (before ++ c ∷ after))
                w).0
              ≡ return_result e)
            × (e.success ≡ true)
            × All IsFailure e.res_statuses)
  unfolding destroy create_destroyed_experiment_status
  destroy_blind return_result before after c w silent = (
    ap (λ p. (return_result (create_destroyed_experiment_status p.0), p.1))
        (silent_dropped before after c w silent),
    (_, refl, refl, destroy_loop-IsFailure (before ++ c ∷ after) [] w tt),
  )
