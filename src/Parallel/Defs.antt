-- ===== src/Parallel/Defs.antt =====
-- ParallelizeExec of exec/model/parallelizer.go, execCommands of exec/model/executor.go and
-- ExecCommandInPodExecutor.Exec of exec/model/executor_copy.go. What the cluster answers to job `i` is
-- a parameter. The workers are steps of a relation, one for each write of the shared variables.
use chaosblade_operator.Base.{
  ℕ, ◌+◌, ◌<◌, String, ◌⧺◌, ◌==◌, ◌≡◌, Bool, true, false, ◌&&◌, List, [], ◌∷◌, ◌++◌, length, none,
  some, Option, if◌then◌else◌, ltb,
}
use chaosblade_operator.Api.{
  Message, text, formatted, Code, k8s_exec_failed, ResourceStatus, ExperimentStatus, zero_status,
  success_state, error_state, create_fail_resource_status, create_success_resource_status,
  no_message,
}
use chaosblade_operator.Model.Identifier.{get_identifier}
use chaosblade_operator.Commands.Defs.{ExperimentIdentifierInPod}

-- identifier.Error == ""
abbrev pub is_empty : Message → Bool
is_empty (text e) = e == ""
is_empty (formatted code args) = false

-- The read of the pod before the command.
pub data Probe : Type 0 where
  exists gone unreadable : Probe

-- The decoded answer to the command: the id of the experiment, or the error and its code.
pub data Answer : Type 0 where
  answered : String → Answer
  failed : Message → Option Code → Answer

pub record Job : Type 0 where
  pub identifier : ExperimentIdentifierInPod
  pub probe : Probe
  pub answer : Answer

unfoldable pub exec_commands : Bool → ResourceStatus → Answer → Bool × ResourceStatus
unfolding create_fail_resource_status create_success_resource_status
exec_commands destroying rs (answered id) =
    (true, create_success_resource_status (if destroying then rs else record rs { id = id }))
exec_commands destroying rs (failed err code) = (false, create_fail_resource_status rs err code)

-- A job that finds its pod gone sets the shared `success` to true, without the lock.
unfoldable pub overwrites : Job → Bool
overwrites job =
    if is_empty job.identifier.error
    then (if job.identifier.meta.pod_name == ""
        then false
        else elim job.probe [ gone ↦ true | exists ↦ false | unreadable ↦ false ])
    else false

abbrev pub where_is : ExperimentIdentifierInPod → String
where_is identifier = "pod: " ⧺ (identifier.meta.pod_name ⧺ (" in " ⧺ identifier.meta.namespace))

module _ (scope : String) (destroying : Bool) where
  abbrev pub start_status : Job → ResourceStatus
  start_status job = record {
    id = job.identifier.meta.id;
    state = "";
    code = none;
    error = no_message;
    success = false;
    kind = scope;
    identifier = get_identifier job.identifier.meta;
  }

  -- What a job does up to the lock: its status, and whether it succeeded.
  unfoldable pub exec_command_in_pod : Job → Bool × ResourceStatus
  unfolding exec_commands create_fail_resource_status create_success_resource_status
  exec_command_in_pod job =
      let rs = start_status job in
      if is_empty job.identifier.error
      then (if job.identifier.meta.pod_name == ""
          then exec_commands destroying rs job.answer
          else elim job.probe [
            | exists ↦ exec_commands destroying rs job.answer
            | gone ↦
                exec_commands destroying
                  (record (create_success_resource_status rs) {
                    error =
                        text
                          (where_is job.identifier ⧺ " not found, skip to execute command in it");
                  })
                  job.answer
            | unreadable ↦ (
              false,
              create_fail_resource_status rs (text ("get " ⧺ (where_is job.identifier ⧺ " error")))
                  (some k8s_exec_failed),
            )
          ])
      else (false, create_fail_resource_status rs job.identifier.error (some k8s_exec_failed))

  -- The shared variables, the channel, and the jobs that workers have before and behind the unlocked
  -- write.
  pub record State : Type 0 where
    pub queue : List Job
    pub started : List Job
    pub ready : List Job
    pub success : Bool
    pub statuses : List ResourceStatus

  abbrev pub initial : List Job → State
  initial jobs = record { queue = jobs; started = []; ready = []; success = true; statuses = [] }

  abbrev pub max_workers : ℕ
  max_workers = 64

  -- min(maxWorkers, workCount)
  unfoldable pub workers_for : ℕ → ℕ
  workers_for work_count = if ltb work_count max_workers then work_count else max_workers

  -- One step of one of the workers: receiving from the channel, the unlocked part, the locked part.
  pub data Step (workers : ℕ) : State → State → Type 0 where
    take :
        (job : Job) (queue started ready : List Job) (success : Bool)
        (statuses : List ResourceStatus)
        → length started + length ready < workers
        → Step workers
            (record {
              queue = job ∷ queue;
              started = started;
              ready = ready;
              success = success;
              statuses = statuses;
            })
            (record {
              queue = queue;
              started = job ∷ started;
              ready = ready;
              success = success;
              statuses = statuses;
            })
    execute :
        (before after : List Job) (job : Job) (queue ready : List Job) (success : Bool)
        (statuses : List ResourceStatus)
        → Step workers
            (record {
              queue = queue;
              started = before ++ job ∷ after;
              ready = ready;
              success = success;
              statuses = statuses;
            })
            (record {
              queue = queue;
              started = before ++ after;
              ready = job ∷ ready;
              success = if overwrites job then true else success;
              statuses = statuses;
            })
    finish :
        (before after : List Job) (job : Job) (queue started : List Job) (success : Bool)
        (statuses : List ResourceStatus)
        → Step workers
            (record {
              queue = queue;
              started = started;
              ready = before ++ job ∷ after;
              success = success;
              statuses = statuses;
            })
            (record {
              queue = queue;
              started = started;
              ready = before ++ after;
              success = success && (exec_command_in_pod job).0;
              statuses = statuses ++ (exec_command_in_pod job).1 ∷ [];
            })

  -- Some steps, one after the other.
  pub data Run (workers : ℕ) : State → State → Type 0 where
    rest : (s : State) → Run workers s s
    next : {s t u : State} → Run workers s t → Step workers t u → Run workers s u

  -- The channel is empty and every worker has ended.
  pub record IsOver (s : State) : Type 0 where
    pub none_queued : s.queue ≡ []
    pub none_started : s.started ≡ []
    pub none_ready : s.ready ≡ []

-- The status of the experiment that is made of the shared variables in the end.
unfoldable pub exec_result : Bool → List ResourceStatus → ExperimentStatus
exec_result true sts = record zero_status {
  success = true;
  state = success_state;
  res_statuses = sts;
}
exec_result false [] = record zero_status {
  state = error_state;
  error = text "the resources not found";
}
exec_result false (s ∷ ss) = record zero_status {
  state = error_state;
  error = text "see resStatus for the error details";
  res_statuses = s ∷ ss;
}
