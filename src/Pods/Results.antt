-- ===== src/Pods/Results.antt =====
-- The results of the two executors.
use chaosblade_operator.Base.{
  String, ◌≡◌, ◌⊎◌, inl, inr, refl, sym, ap, ◌∙◌, arith, Bool, true, false, ◌||◌, Option, none,
  some, List, [], ◌∷◌, ◌++◌, map, append-nil,
}
use chaosblade_operator.Api.{
  ResourceStatus, ExperimentStatus, Response, create_destroyed_experiment_status,
  create_fail_experiment_status, create_success_experiment_status, create_fail_resource_status,
  create_success_resource_status,
}
use chaosblade_operator.Model.Identifier.{ContainerObjectMeta, get_identifier}
use chaosblade_operator.Pods.Defs.{
  Client, Pod, Read, found, not_read, pod_identifier, summary, pod_status, deleted_status,
  delete_loop, fail_one, fail_loop, unfail_loop, delete_create, fail_create, fail_destroy,
}

abbrev pub any_ok : List ResourceStatus → Bool
any_ok [] = false
any_ok (s ∷ ss) = s.success || any_ok ss

abbrev pub identifiers : List ResourceStatus → List String
identifiers ss = map (λ (s : ResourceStatus). s.identifier) ss

any_ok-append :
    (acc : List ResourceStatus) (s : ResourceStatus)
    → any_ok (acc ++ s ∷ []) ≡ (any_ok acc || s.success)
any_ok-append [] s = ground arith
any_ok-append (a ∷ acc) s = ground (arith, any_ok-append acc s)

identifiers-append :
    (acc : List ResourceStatus) (s : ResourceStatus) (rest : List String)
    → identifiers (acc ++ s ∷ []) ++ rest ≡ identifiers acc ++ (s.identifier ∷ rest)
identifiers-append [] s rest = refl
identifiers-append (a ∷ acc) s rest = ap (λ l. a.identifier ∷ l) (identifiers-append acc s rest)

read-cases : (r : Read) → ((p : Pod) × (r ≡ found p)) ⊎ ((err : String) × (r ≡ not_read err))
read-cases (found p) = inl (p, refl)
read-cases (not_read err) = inr (err, refl)

-- What one more status adds to the two facts about the statuses so far.
any_ok-step :
    (acc : List ResourceStatus) (success ok : Bool) (s : ResourceStatus)
    → success ≡ any_ok acc
    → s.success ≡ ok
    → (success || ok) ≡ any_ok (acc ++ s ∷ [])
any_ok-step acc success ok s h k = ground (arith, any_ok-append acc s)

module _ {W : Type 0} (client : Client W) where
  deleted_status_lem :
      (s : ResourceStatus) (err : Option String)
      → ((deleted_status client s err).0.success ≡ (deleted_status client s err).1)
        × ((deleted_status client s err).0.identifier ≡ s.identifier)
  unfolding create_fail_resource_status create_success_resource_status
  deleted_status_lem s none = (refl, refl)
  deleted_status_lem s (some e) = (refl, refl)

  delete_loop_lem :
      (cs : List ContainerObjectMeta) (success : Bool) (acc : List ResourceStatus) (w : W)
      → success ≡ any_ok acc
      → let (done, sts) = (delete_loop client cs success acc w).0 in
        (done ≡ any_ok sts) × (identifiers sts ≡ identifiers acc ++ map pod_identifier cs)
  unfolding delete_loop
  delete_loop_lem [] success acc w h = (h, sym (append-nil _))
  delete_loop_lem (c ∷ cs) success acc w h =
      let (err, w') = client.delete c.namespace c.pod_name w in
      let start = pod_status "" (pod_identifier c) in
      let (flag, same) = deleted_status_lem start err in
      let (status, ok) = deleted_status client start err in
      let (p, q) =
        delete_loop_lem cs (success || ok) (acc ++ status ∷ []) w'
          (any_ok-step acc success ok status h flag) in
      (
        p,
        q
            ∙ identifiers-append acc status _
            ∙ ap (λ i. identifiers acc ++ (i ∷ map pod_identifier cs)) same,
      )

  fail_one_lem :
      (c : ContainerObjectMeta) (w : W)
      → ((fail_one client c w).0.0.success ≡ (fail_one client c w).0.1)
        × ((fail_one client c w).0.0.identifier ≡ get_identifier c)
  unfolding fail_one create_fail_resource_status create_success_resource_status
  fail_one_lem c w = ground arith

  fail_loop_lem :
      (cs : List ContainerObjectMeta) (success : Bool) (acc : List ResourceStatus) (w : W)
      → success ≡ any_ok acc
      → let (done, sts) = (fail_loop client cs success acc w).0 in
        (done ≡ any_ok sts) × (identifiers sts ≡ identifiers acc ++ map get_identifier cs)
  unfolding fail_loop
  fail_loop_lem [] success acc w h = (h, sym (append-nil _))
  fail_loop_lem (c ∷ cs) success acc w h =
      let ((status, ok), w') = fail_one client c w in
      let (flag, same) = fail_one_lem c w in
      let (p, q) =
        fail_loop_lem cs (success || ok) (acc ++ status ∷ []) w'
          (any_ok-step acc success ok status h flag) in
      (
        p,
        q
            ∙ identifiers-append acc status _
            ∙ ap (λ i. identifiers acc ++ (i ∷ map get_identifier cs)) same,
      )

  unfail_loop_lem :
      (cs : List ContainerObjectMeta) (acc : List ResourceStatus) (w : W)
      → (unfail_loop client cs acc w).0 ≡ acc
  unfolding unfail_loop
  unfail_loop_lem [] acc w = refl
  unfail_loop_lem (c ∷ cs) acc w = elim (read-cases (client.get c.namespace c.pod_name w).0) [
    | inl (pod, e) ↦ rw (e, unfail_loop) (unfail_loop_lem cs acc _)
    | inr (err, e) ↦ rw (e, unfail_loop) (unfail_loop_lem cs acc _)
  ]

  summary_lem :
      (done : Bool) (sts : List ResourceStatus)
      → ((summary done sts).success ≡ done) × ((summary done sts).res_statuses ≡ sts)
  unfolding summary create_success_experiment_status create_fail_experiment_status
  summary_lem true sts = (refl, refl)
  summary_lem false sts = (refl, refl)

  module _ (return_result : ExperimentStatus → Response)
      (carries : (s : ExperimentStatus) → (return_result s).result ≡ some s)
      (cs : List ContainerObjectMeta) (w : W) where
    -- Creating "delete" for a list of matched pods answers with one status for each pod, in their
    -- order, and the experiment succeeds exactly if one of the pods was deleted.
    pub delete_create_lem :
        (status : ExperimentStatus) × ((delete_create client return_result (some cs) w).0.result
          ≡ some status)
        × (status.success ≡ any_ok status.res_statuses)
        × (identifiers status.res_statuses ≡ map pod_identifier cs)
    unfolding delete_create
    delete_create_lem =
        let ((done, sts), w') = delete_loop client cs false [] w in
        let (p, q) = delete_loop_lem cs false [] w refl in
        let (flag, same) = summary_lem done sts in
        (summary done sts, carries _, flag ∙ p ∙ ap any_ok (sym same), ap identifiers same ∙ q)

    -- Creating "fail" does the same with the identifiers of the matched containers.
    pub fail_create_lem :
        (status : ExperimentStatus) × ((fail_create client return_result (some cs) w).0.result
          ≡ some status)
        × (status.success ≡ any_ok status.res_statuses)
        × (identifiers status.res_statuses ≡ map get_identifier cs)
    unfolding fail_create
    fail_create_lem =
        let ((done, sts), w') = fail_loop client cs false [] w in
        let (p, q) = fail_loop_lem cs false [] w refl in
        let (flag, same) = summary_lem done sts in
        (summary done sts, carries _, flag ∙ p ∙ ap any_ok (sym same), ap identifiers same ∙ q)

  -- Destroying "fail" reports success without any resource, whatever the client answers: a pod that
  -- could not be read or deleted is not mentioned.
  pub fail_destroy_blind :
      (return_result : ExperimentStatus → Response) (cs : List ContainerObjectMeta) (w : W)
      → (fail_destroy client return_result (some cs) w).0
        ≡ return_result (create_destroyed_experiment_status [])
  unfolding fail_destroy
  fail_destroy_blind return_result cs w = rw (unfail_loop_lem cs [] w)
