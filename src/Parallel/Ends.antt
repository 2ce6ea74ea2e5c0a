-- ===== src/Parallel/Ends.antt =====
-- Every run of the workers ends, and none gets stuck.
use chaosblade_operator.Base.{
  ℕ, ◌+◌, ◌*◌, ◌≤◌, ◌<◌, String, ◌≡◌, ◌⊎◌, inl, inr, refl, arith, Bool, List, [], ◌∷◌, length,
  length-append,
}
use chaosblade_operator.Api.{ResourceStatus}
use chaosblade_operator.Parallel.Defs.{
  Job, State, initial, workers_for, Step, take, execute, finish, Run, rest, next, IsOver,
}

module _ (scope : String) (destroying : Bool) where
  -- The steps that are left: three for a job in the channel, two for one that was taken, one for one
  -- that is ready.
  abbrev steps_left : State scope destroying → ℕ
  steps_left s = 3 * length s.queue + 2 * length s.started + length s.ready

  abbrev pub steps :
      {workers : ℕ} {s t : State scope destroying} → Run scope destroying workers s t → ℕ
  steps (rest s) = 0
  steps (next run step) = steps run + 1

  step-steps_left :
      (workers : ℕ) {s t : State scope destroying}
      → Step scope destroying workers s t
      → steps_left t + 1 ≡ steps_left s
  step-steps_left workers (take job queue started ready success statuses free) = omega arith
  step-steps_left workers (execute before after job queue ready success statuses) =
      omega (arith, length-append before after, length-append before (job ∷ after))
  step-steps_left workers (finish before after job queue started success statuses) =
      omega (arith, length-append before after, length-append before (job ∷ after))

  steps_made :
      (workers : ℕ) {s t : State scope destroying} (run : Run scope destroying workers s t)
      → steps run + steps_left t ≡ steps_left s
  steps_made workers (rest s) = omega arith
  steps_made workers (next run step) =
      omega (arith, steps_made workers run, step-steps_left workers step)

  -- A state in which some worker can take a step.
  abbrev pub CanStep : ℕ → State scope destroying → Type 0
  CanStep workers s = (t : State scope destroying) × Step scope destroying workers s t

  IsOver-or_step :
      (workers : ℕ) (queue started ready : List Job) (success : Bool)
      (statuses : List ResourceStatus)
      → (0 < workers) ⊎ (queue ≡ [])
      → let s : State scope destroying = record {
        queue = queue;
        started = started;
        ready = ready;
        success = success;
        statuses = statuses;
      } in
        IsOver scope destroying s ⊎ CanStep workers s
  IsOver-or_step workers queue (job ∷ started) ready success statuses h =
      inr (_, execute [] started job queue ready success statuses)
  IsOver-or_step workers queue [] (job ∷ ready) success statuses h =
      inr (_, finish [] ready job queue [] success statuses)
  IsOver-or_step workers (job ∷ queue) [] [] success statuses (inl some_worker) =
      inr (_, take job queue [] [] success statuses (omega arith))
  IsOver-or_step workers (job ∷ queue) [] [] success statuses (inr e) = absurd (cc)
  IsOver-or_step workers [] [] [] success statuses h =
      inl (record { none_queued = refl; none_started = refl; none_ready = refl })

  empty_of_length : {A : Type 0} (l : List A) → length l ≡ 0 → l ≡ []
  empty_of_length [] e = refl
  empty_of_length (x ∷ l) e = absurd (omega arith)

  -- With the number of workers that the program starts, every run has at most three steps for each
  -- job, and in every state that a run reaches either all is over or some worker can take a step.
  pub run_ends :
      (jobs : List Job) (s : State scope destroying)
      (run : Run scope destroying
        (workers_for scope destroying (length jobs))
        (initial scope destroying jobs)
        s)
      → (steps run ≤ 3 * length jobs)
        × (IsOver scope destroying s ⊎ CanStep (workers_for scope destroying (length jobs)) s)
  unfolding workers_for
  run_ends jobs s run = (
    omega (arith, steps_made _ run),
    IsOver-or_step _ s.queue s.started s.ready s.success s.statuses (enough jobs run),
  )
    where
      enough :
          (jobs : List Job)
          (run : Run scope destroying
            (workers_for scope destroying (length jobs))
            (initial scope destroying jobs)
            s)
          → (0 < workers_for scope destroying (length jobs)) ⊎ (s.queue ≡ [])
      enough [] run = inr (empty_of_length s.queue (omega (arith, steps_made _ run)))
      enough (job ∷ jobs) run = inl (ground arith)
