-- ===== src/Dispatch/Statuses.antt =====
-- The statuses that the dispatcher answers with.
use chaosblade_operator.Base.{
  String, ◌==◌, ◌≡◌, ◌≢◌, refl, ap, true, some, List, [], ◌∷◌, map, arith, All, if◌then◌else◌,
}
use chaosblade_operator.Api.{
  ExperimentSpec, ResourceStatus, ExperimentStatus, error_state, destroyed_state,
  create_destroyed_experiment_status,
}
use chaosblade_operator.Dispatch.Defs.{
  ExperimentController, Controllers, controller_of, create_experiment_status_by_response,
  destroyed_resource, create_destroyed_status, retain_states, create, destroy,
}

-- The loop that is to restore the states of failed resources restores none.
pub retain_states-id : (ss olds : List ResourceStatus) → retain_states ss olds ≡ ss
unfolding retain_states
retain_states-id [] olds = refl
retain_states-id (s ∷ ss) olds = ap (λ l. s ∷ l) (retain_states-id ss olds)

module _ {W : Type 0} (e : Controllers W) (name : String) (exp : ExperimentSpec) (w : W)
    {c : ExperimentController W} (known : controller_of e exp.scope ≡ some c) where
  -- What an experiment of a known scope is created with: the scope's controller is called once, and
  -- the status has the scope, target and action of the experiment, and the success, state, error and
  -- resources of the controller's result.
  pub create_labels :
      let (response, w') = c.create name exp w in
      let (status, w'') = create e name exp w in
      let answer = create_experiment_status_by_response response in
      (w'' ≡ w')
      × (status.scope ≡ exp.scope)
      × (status.target ≡ exp.target)
      × (status.action ≡ exp.action)
      × (status.success ≡ answer.success)
      × (status.state ≡ answer.state)
      × (status.error ≡ answer.error)
      × (status.res_statuses ≡ answer.res_statuses)
  unfolding create
  create_labels = rw (known, create) (refl, refl, refl, refl, refl, refl, refl, refl)

  -- Destroying an experiment of a known scope that has resources calls the scope's controller once.
  -- The new status keeps the scope, target and action of the old one, and its state too where the
  -- controller's state is "Error"; success, error and every resource status are the controller's.
  pub destroy_keeps :
      (old : ExperimentStatus)
      → old.res_statuses ≢ []
      → let (response, w') = c.destroy name exp old w in
        let (status, w'') = destroy e name exp old w in
        let answer = create_experiment_status_by_response response in
        (w'' ≡ w')
        × (status.scope ≡ old.scope)
        × (status.target ≡ old.target)
        × (status.action ≡ old.action)
        × (status.success ≡ answer.success)
        × (status.state ≡ (if answer.state == error_state then old.state else answer.state))
        × (status.error ≡ answer.error)
        × (status.res_statuses ≡ answer.res_statuses)
  unfolding destroy
  destroy_keeps old some_left = ground (
    arith,
    retain_states-id
        (create_experiment_status_by_response (c.destroy name exp old w).0).res_statuses
        old.res_statuses,
  )

  -- Destroying an experiment of a known scope that has no resources calls no controller and succeeds.
  pub destroy_nothing :
      (old : ExperimentStatus)
      → old.res_statuses ≡ []
      → destroy e name exp old w ≡ (create_destroyed_experiment_status [], w)
  unfolding destroy
  destroy_nothing old none_left = ground arith

abbrev IsDestroyed : ResourceStatus → Type 0
IsDestroyed s = (s.state ≡ destroyed_state) × (s.success ≡ true)

map-IsDestroyed : (ss : List ResourceStatus) → All IsDestroyed (map destroyed_resource ss)
map-IsDestroyed [] = tt
map-IsDestroyed (s ∷ ss) = ((refl, refl), map-IsDestroyed ss)

identifiers_kept :
    (ss : List ResourceStatus)
    → map (λ (s : ResourceStatus). s.identifier) (map destroyed_resource ss)
      ≡ map (λ (s : ResourceStatus). s.identifier) ss
identifiers_kept [] = refl
identifiers_kept (s ∷ ss) = ap (λ l. s.identifier ∷ l) (identifiers_kept ss)

-- `CreateDestroyedStatus` succeeds, marks every resource destroyed and keeps their identifiers.
pub create_destroyed_status_lem :
    (old : ExperimentStatus)
    → let new = create_destroyed_status old in
      (new.success ≡ true)
      × All IsDestroyed new.res_statuses
      × (map (λ (s : ResourceStatus). s.identifier) new.res_statuses
          ≡ map (λ (s : ResourceStatus). s.identifier) old.res_statuses)
unfolding create_destroyed_status create_destroyed_experiment_status
create_destroyed_status_lem old =
    (refl, map-IsDestroyed old.res_statuses, identifiers_kept old.res_statuses)
