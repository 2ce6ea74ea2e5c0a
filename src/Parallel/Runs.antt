-- ===== src/Parallel/Runs.antt =====
-- What every run of the workers comes to.
use mathlib.Core.List.{Perm, perm_middle}
use mathlib.Core.List.Perm
use mathlib.Core.Path.{subst}
use chaosblade_operator.Base.{
  ℕ, String, ◌≡◌, refl, sym, ap, ◌∙◌, arith, Bool, true, false, ◌&&◌, List, [], ◌∷◌, ◌++◌,
  append_assoc, append-nil, map, All,
}
use chaosblade_operator.Api.{
  ResourceStatus, create_fail_resource_status, create_success_resource_status,
}
use chaosblade_operator.Parallel.Defs.{
  Job, overwrites, exec_commands, exec_command_in_pod, State, initial, Step, take, execute, finish,
  Run, rest, next, IsOver,
}

module _ {A : Type 0} where
  received :
      (job : A) (queue started ready : List A)
      → Perm (job ∷ (started ++ (ready ++ queue))) (started ++ (ready ++ job ∷ queue))
  received job queue started ready = Perm.symm (
      Perm.trans (Perm.append_left started (perm_middle ready queue))
        (perm_middle started (ready ++ queue)))

  moved :
      (before after others : List A) (job : A)
      → Perm ((before ++ after) ++ (job ∷ others)) ((before ++ job ∷ after) ++ others)
  moved before after others job =
      Perm.trans (perm_middle (before ++ after) others)
        (Perm.symm (Perm.append_right others (perm_middle before after)))

  left :
      (job : A) (queue started before after : List A)
      → Perm
          (job ∷ (started ++ ((before ++ after) ++ queue)))
          (started ++ ((before ++ job ∷ after) ++ queue))
  left job queue started before after = Perm.symm (
      Perm.trans (Perm.append_left started (Perm.append_right queue (perm_middle before after)))
        (perm_middle started ((before ++ after) ++ queue)))

  All-middle :
      (P : A → Type 0) (before after : List A) (job : A)
      → All P (before ++ job ∷ after)
      → P job × All P (before ++ after)
  All-middle P [] after job (p, ps) = (p, ps)
  All-middle P (b ∷ before) after job (p, ps) =
      let (q, qs) = All-middle P before after job ps in (q, (p, qs))

abbrev pub all_ok : List ResourceStatus → Bool
all_ok [] = true
all_ok (s ∷ ss) = s.success && all_ok ss

all_ok-append :
    (ss : List ResourceStatus) (s : ResourceStatus)
    → all_ok (ss ++ s ∷ []) ≡ (all_ok ss && s.success)
all_ok-append [] s = ground arith
all_ok-append (x ∷ ss) s = ground (arith, all_ok-append ss s)

module _ (scope : String) (destroying : Bool) where
  abbrev pub status_of : Job → ResourceStatus
  status_of job = (exec_command_in_pod scope destroying job).1

  exec_command_in_pod_lem :
      (job : Job) → (exec_command_in_pod scope destroying job).0 ≡ (status_of job).success
  unfolding exec_command_in_pod exec_commands create_fail_resource_status
      create_success_resource_status
  exec_command_in_pod_lem job = ground arith

  map-append_one :
      (l : List Job) (job : Job)
      → map status_of (l ++ job ∷ []) ≡ map status_of l ++ status_of job ∷ []
  map-append_one [] job = refl
  map-append_one (x ∷ l) job = ap (λ m. status_of x ∷ m) (map-append_one l job)

  module _ (workers : ℕ) (jobs : List Job) where
    -- The jobs that have ended, in their order, and how they make up all jobs with the others.
    record IsPartial (s : State scope destroying) : Type 0 where
      ended : List Job
      recorded : s.statuses ≡ map status_of ended
      complete : Perm (ended ++ (s.started ++ (s.ready ++ s.queue))) jobs

    step-IsPartial :
        {s t : State scope destroying}
        → Step scope destroying workers s t
        → IsPartial s
        → IsPartial t
    step-IsPartial (take job queue started ready success statuses free) p = record {
      ended = p.ended;
      recorded = p.recorded;
      complete =
          Perm.trans (Perm.append_left p.ended (received job queue started ready)) p.complete;
    }
    step-IsPartial (execute before after job queue ready success statuses) p = record {
      ended = p.ended;
      recorded = p.recorded;
      complete =
          Perm.trans (Perm.append_left p.ended (moved before after (ready ++ queue) job))
            p.complete;
    }
    step-IsPartial (finish before after job queue started success statuses) p = record {
      ended = p.ended ++ job ∷ [];
      recorded = ap (λ l. l ++ status_of job ∷ []) p.recorded ∙ sym (map-append_one p.ended job);
      complete =
          Perm.trans
            (rw (append_assoc p.ended (job ∷ []) (started ++ ((before ++ after) ++ queue)))
              (Perm.append_left p.ended (left job queue started before after)))
            p.complete;
    }

    run-IsPartial :
        {s t : State scope destroying}
        → Run scope destroying workers s t
        → IsPartial s
        → IsPartial t
    run-IsPartial (rest s) p = p
    run-IsPartial (next run step) p = step-IsPartial step (run-IsPartial run p)

    -- Whatever the order in which the workers take turns, when all have ended the statuses are those
    -- of all jobs, one for each, in some order.
    pub run_gathers :
        (s : State scope destroying)
        → Run scope destroying workers (initial scope destroying jobs) s
        → IsOver scope destroying s
        → Perm s.statuses (map status_of jobs)
    run_gathers s run over =
        let p =
          run-IsPartial run (record { ended = []; recorded = refl; complete = Perm.refl jobs }) in
        let whole : p.ended ++ (s.started ++ (s.ready ++ s.queue)) ≡ p.ended =
          rw (over.none_started, over.none_ready, over.none_queued) (append-nil p.ended) in
        rw p.recorded (Perm.map status_of (subst (λ l. Perm l jobs) whole p.complete))

  -- Every job taken or waiting leaves `success` alone, and so far it says what the statuses say.
  record IsHonest (s : State scope destroying) : Type 0 where
    waiting : All (λ job. overwrites job ≡ false) s.queue
    taken : All (λ job. overwrites job ≡ false) s.started
    so_far : s.success ≡ all_ok s.statuses

  step-IsHonest :
      (workers : ℕ) {s t : State scope destroying}
      → Step scope destroying workers s t
      → IsHonest s
      → IsHonest t
  step-IsHonest workers (take job queue started ready success statuses free) p = record {
    waiting = p.waiting.1;
    taken = (p.waiting.0, p.taken);
    so_far = p.so_far;
  }
  step-IsHonest workers (execute before after job queue ready success statuses) p =
      let (silent, others) = All-middle (λ job. overwrites job ≡ false) before after job p.taken in
      record { waiting = p.waiting; taken = others; so_far = rw silent p.so_far }
  step-IsHonest workers (finish before after job queue started success statuses) p = record {
    waiting = p.waiting;
    taken = p.taken;
    so_far =
        ap (λ b. b && (exec_command_in_pod scope destroying job).0) p.so_far
        ∙ ap (λ b. all_ok statuses && b) (exec_command_in_pod_lem job)
        ∙ sym (all_ok-append statuses (status_of job));
  }

  run-IsHonest :
      (workers : ℕ) {s t : State scope destroying}
      → Run scope destroying workers s t
      → IsHonest s
      → IsHonest t
  run-IsHonest workers (rest s) p = p
  run-IsHonest workers (next run step) p = step-IsHonest workers step (run-IsHonest workers run p)

  -- If no job finds its pod gone then at every moment of every run `success` says whether all
  -- statuses so far are successes.
  pub run_succeeds :
      (workers : ℕ) (jobs : List Job) (s : State scope destroying)
      → All (λ job. overwrites job ≡ false) jobs
      → Run scope destroying workers (initial scope destroying jobs) s
      → s.success ≡ all_ok s.statuses
  run_succeeds workers jobs s silent run =
      (run-IsHonest workers run (record { waiting = silent; taken = tt; so_far = refl })).so_far
