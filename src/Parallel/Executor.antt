-- ===== src/Parallel/Executor.antt =====
-- Exec of the two executors that run commands in pods (executor_copy.go and executor_nsexec.go of
-- exec/model): the generated identifiers, the workers and the status, in one relation; and the
-- sequential execution that it refines.
use mathlib.Core.Bool.{Bool-set}
use mathlib.Core.Logic.{∥∥₁_elim}
use mathlib.Core.List.{Perm, Permᴰ}
use mathlib.Core.List.Perm
use chaosblade_operator.Base.{
  ℕ, String, ◌≡◌, refl, ap₂, ◌∙◌, arith, Bool, true, false, ◌&&◌, List, [], ◌∷◌, map, length, All,
}
use chaosblade_operator.Api.{
  Message, get_identifier_failed, ResourceStatus, ExperimentStatus, create_fail_experiment_status,
  Response, response_fail_with_result,
}
use chaosblade_operator.Parallel.Defs.{
  Job, overwrites, State, workers_for, initial, Run, IsOver, exec_result,
}
use chaosblade_operator.Parallel.Runs.{all_ok, status_of, run_gathers, run_succeeds}

module _ (scope : String) (destroying : Bool) where
  -- One job after the other.
  abbrev pub sequential : List Job → ExperimentStatus
  sequential jobs =
      let statuses = map (status_of scope destroying) jobs in exec_result (all_ok statuses) statuses

  -- What Exec may answer. The jobs are the generated identifiers with what the cluster answers to each;
  -- the flag is false where they could not be generated, with the error. The polling that Exec starts
  -- in the background changes nothing of the answer.
  pub data Executes (return_result : ExperimentStatus → Response) (ok : Bool) (err : String)
      (jobs : List Job) : Response → Type 0 where
    not_identified :
        ok ≡ false
        → Executes return_result ok err jobs (
            response_fail_with_result get_identifier_failed
              (create_fail_experiment_status (Message.text err) [])
              (err ∷ []))
    executed :
        (s : State scope destroying)
        → ok ≡ true
        → Run scope destroying
            (workers_for scope destroying (length jobs))
            (initial scope destroying jobs)
            s
        → IsOver scope destroying s
        → Executes return_result ok err jobs (return_result (exec_result s.success s.statuses))

all_ok-Permᴰ : {l m : List ResourceStatus} → Permᴰ l m → all_ok l ≡ all_ok m
all_ok-Permᴰ Permᴰ.nil = refl
all_ok-Permᴰ (Permᴰ.cons e d) = ap₂ (λ (s : ResourceStatus) b. s.success && b) e (all_ok-Permᴰ d)
all_ok-Permᴰ (Permᴰ.swap {a = a} {b = b} {l = l} e f) =
    and_left_comm a.success b.success (all_ok l)
    ∙ ap₂ (λ (x y : ResourceStatus). y.success && (x.success && all_ok l)) e f
  where
    and_left_comm : (x y z : Bool) → (x && (y && z)) ≡ (y && (x && z))
    and_left_comm x y z = ground arith
all_ok-Permᴰ (Permᴰ.trans d e) = all_ok-Permᴰ d ∙ all_ok-Permᴰ e

all_ok-Perm : {l m : List ResourceStatus} → Perm l m → all_ok l ≡ all_ok m
all_ok-Perm p = ∥∥₁_elim p (Bool-set _ _) all_ok-Permᴰ

-- The same statuses in some order, and otherwise the same status.
pub record Refines (e f : ExperimentStatus) : Type 0 where
  pub same_success : e.success ≡ f.success
  pub same_state : e.state ≡ f.state
  pub same_error : e.error ≡ f.error
  pub same_statuses : Perm e.res_statuses f.res_statuses

exec_result-Refines :
    (b : Bool) (l m : List ResourceStatus) → Perm l m → Refines (exec_result b l) (exec_result b m)
unfolding exec_result
exec_result-Refines true l m p = record {
  same_success = refl;
  same_state = refl;
  same_error = refl;
  same_statuses = p;
}
exec_result-Refines false [] [] p = record {
  same_success = refl;
  same_state = refl;
  same_error = refl;
  same_statuses = p;
}
exec_result-Refines false (x ∷ l) (y ∷ m) p = record {
  same_success = refl;
  same_state = refl;
  same_error = refl;
  same_statuses = p;
}
exec_result-Refines false [] (y ∷ m) p = let e = Perm.nil-eq p in absurd (cc)
exec_result-Refines false (x ∷ l) [] p = let e = Perm.eq-nil p in absurd (cc)

run-Refines :
    (scope : String) (destroying : Bool) (workers : ℕ) (jobs : List Job)
    (s : State scope destroying)
    → All (λ job. overwrites job ≡ false) jobs
    → Run scope destroying workers (initial scope destroying jobs) s
    → IsOver scope destroying s
    → Refines (exec_result s.success s.statuses) (sequential scope destroying jobs)
run-Refines scope destroying workers jobs s silent run over =
    let p = run_gathers scope destroying workers jobs s run over in
    let e = run_succeeds scope destroying workers jobs s silent run ∙ all_ok-Perm p in
    rw e (exec_result-Refines _ s.statuses (map (status_of scope destroying) jobs) p)

-- If the identifiers could be generated and no job finds its pod gone: whatever Exec answers, it is
-- the status of the jobs executed one after the other, with the statuses of the resources in some
-- order.
pub Executes-Refines :
    (scope : String) (destroying : Bool) (return_result : ExperimentStatus → Response)
    (err : String) (jobs : List Job) (answer : Response)
    → All (λ job. overwrites job ≡ false) jobs
    → Executes scope destroying return_result true err jobs answer
    → (e : ExperimentStatus) × (answer ≡ return_result e)
      × Refines e (sequential scope destroying jobs)
Executes-Refines scope destroying return_result err jobs _ silent (not_identified e) = absurd (cc)
Executes-Refines scope destroying return_result err jobs _ silent (executed s e run over) =
    (_, refl, run-Refines scope destroying _ jobs s silent run over)
