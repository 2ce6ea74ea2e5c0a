-- ===== src/Parallel/Tests.antt =====
-- Two jobs, runs of them, and the theorems at those runs.
use mathlib.Core.List.{Perm}
use chaosblade_operator.Base.{
  ℕ, ◌*◌, ◌≤◌, String, ◌≡◌, ◌⊎◌, refl, Bool, true, false, none, List, [], ◌∷◌, map, length, arith,
  All,
}
use chaosblade_operator.Api.{text, no_message, ResourceStatus, ExperimentStatus, return_success}
use chaosblade_operator.Model.Identifier.{ContainerObjectMeta}
use chaosblade_operator.Parallel.Defs.{
  Job, Probe, exists, gone, Answer, answered, failed, State, initial, workers_for, overwrites,
  exec_command_in_pod, exec_commands, Run, rest, next, take, execute, finish, IsOver, exec_result,
}
use chaosblade_operator.Parallel.Runs.{status_of, all_ok, run_gathers}
use chaosblade_operator.Parallel.Executor.{
  Executes, executed, Refines, sequential, Executes-Refines,
}
use chaosblade_operator.Parallel.Ends.{steps, CanStep, run_ends}

abbrev meta : String → ContainerObjectMeta
meta pod = record {
  id = "";
  container_runtime = "docker";
  container_id = "0123";
  container_name = "app";
  pod_name = pod;
  node_name = "n1";
  namespace = "default";
}

abbrev job : String → Probe → Answer → Job
job pod probe answer = record {
  identifier = record {
    meta = meta pod;
    command = "create";
    error = no_message;
    code = none;
    chaosblade_pod_name = "";
  };
  probe = probe;
  answer = answer;
}

abbrev failing : Job
failing = job "a" exists (failed (text "boom") none)

abbrev vanished : Job
vanished = job "b" gone (answered "x1")

abbrev state_of : List Job → List Job → List Job → Bool → List ResourceStatus → State "pod" false
state_of queue started ready success statuses = record {
  queue = queue;
  started = started;
  ready = ready;
  success = success;
  statuses = statuses;
}

abbrev workers : ℕ
workers = 2

-- The failing job ends before the other one writes `success`.
late_write :
    Run "pod" false workers
      (initial "pod" false (failing ∷ vanished ∷ []))
      (state_of [] [] [] true (status_of "pod" false failing ∷ status_of "pod" false vanished ∷ []))
unfolding overwrites exec_command_in_pod exec_commands
late_write =
    next
      (next
        (next
          (next
            (next (next (rest _) (take failing (vanished ∷ []) [] [] true [] (omega arith)))
              (take vanished [] (failing ∷ []) [] true [] (omega arith)))
            (execute (vanished ∷ []) [] failing [] [] true []))
          (finish [] [] failing [] (vanished ∷ []) true []))
        (execute [] [] vanished [] [] false (status_of "pod" false failing ∷ [])))
      (finish [] [] vanished [] [] true (status_of "pod" false failing ∷ []))

late_write-IsOver :
    IsOver "pod" false
      (state_of [] [] [] true (status_of "pod" false failing ∷ status_of "pod" false vanished ∷ []))
late_write-IsOver = record { none_queued = refl; none_started = refl; none_ready = refl }

-- The run reports success although one of the statuses is a failure.
late_write_lies :
    all_ok (status_of "pod" false failing ∷ status_of "pod" false vanished ∷ []) ≡ false
unfolding exec_command_in_pod exec_commands
late_write_lies = refl

run_gathers_example :
    Perm
      (status_of "pod" false failing ∷ status_of "pod" false vanished ∷ [])
      (map (status_of "pod" false) (failing ∷ vanished ∷ []))
run_gathers_example =
    run_gathers "pod" false workers (failing ∷ vanished ∷ [])
      (state_of [] [] [] true (status_of "pod" false failing ∷ status_of "pod" false vanished ∷ []))
      late_write late_write-IsOver

abbrev fine : Job
fine = job "b" exists (answered "x1")

-- The second job ends first.
swapped_run :
    Run "pod" false
      (workers_for "pod" false 2)
      (initial "pod" false (failing ∷ fine ∷ []))
      (state_of [] [] [] false (status_of "pod" false fine ∷ status_of "pod" false failing ∷ []))
unfolding workers_for overwrites exec_command_in_pod exec_commands
swapped_run =
    next
      (next
        (next
          (next
            (next (next (rest _) (take failing (fine ∷ []) [] [] true [] (omega arith)))
              (take fine [] (failing ∷ []) [] true [] (omega arith)))
            (execute [] (failing ∷ []) fine [] [] true []))
          (finish [] [] fine [] (failing ∷ []) true []))
        (execute [] [] failing [] [] true (status_of "pod" false fine ∷ [])))
      (finish [] [] failing [] [] true (status_of "pod" false fine ∷ []))

silent_jobs : All (λ job. overwrites job ≡ false) (failing ∷ fine ∷ [])
unfolding overwrites
silent_jobs = (refl, (refl, tt))

swapped_answer : Executes "pod" false return_success true "" (failing ∷ fine ∷ []) (
    return_success
      (exec_result false (status_of "pod" false fine ∷ status_of "pod" false failing ∷ [])))
swapped_answer =
    executed
      (state_of [] [] [] false (status_of "pod" false fine ∷ status_of "pod" false failing ∷ []))
      refl swapped_run (record { none_queued = refl; none_started = refl; none_ready = refl })

Executes-Refines_example :
    (e : ExperimentStatus) × (return_success
        (exec_result false (status_of "pod" false fine ∷ status_of "pod" false failing ∷ []))
      ≡ return_success e)
    × Refines e (sequential "pod" false (failing ∷ fine ∷ []))
Executes-Refines_example =
    Executes-Refines "pod" false return_success "" (failing ∷ fine ∷ [])
      (return_success
        (exec_result false (status_of "pod" false fine ∷ status_of "pod" false failing ∷ [])))
      silent_jobs swapped_answer

two_run :
    Run "pod" false
      (workers_for "pod" false 2)
      (initial "pod" false (failing ∷ vanished ∷ []))
      (state_of (vanished ∷ []) (failing ∷ []) [] true [])
unfolding workers_for
two_run = next (rest _) (take failing (vanished ∷ []) [] [] true [] (omega arith))

run_ends_example :
    (steps "pod" false two_run ≤ 3 * length (failing ∷ vanished ∷ []))
    × (IsOver "pod" false (state_of (vanished ∷ []) (failing ∷ []) [] true [])
        ⊎ CanStep "pod" false
            (workers_for "pod" false 2)
            (state_of (vanished ∷ []) (failing ∷ []) [] true []))
run_ends_example =
    run_ends "pod" false (failing ∷ vanished ∷ [])
      (state_of (vanished ∷ []) (failing ∷ []) [] true []) two_run
