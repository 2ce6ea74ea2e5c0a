-- ===== src/Lib.antt =====
-- A model of the ChaosBlade operator, a Kubernetes operator that injects faults into pods, nodes and
-- containers, with the theorems about its behaviour.
--
-- The parts and how they meet. A `ChaosBlade` resource (Api) lists experiments. The predicates on
-- watch events (Predicate) decide which changes of it start a reconciliation. The reconciler
-- (Reconcile) moves the resource through its phases and hands every experiment to an executor, whose
-- interface is `ExpController`. The executor of the program is the dispatcher (Dispatch): it picks the
-- controller of the experiment's scope and turns the answer into a status. The controllers check the
-- flags of the experiment, count and select pods or nodes, and store what they took as identifiers
-- (Model, Scope, Containers), which they find by queries (Query). Actions like "delete" and "fail"
-- (Pods) change the pods, the action "IO" (PodIo) sends its fault to the file system inside them, and
-- the others run a command for each container (Commands) by concurrent workers (Parallel), through a
-- channel (Channel). Before that the tool may have to be deployed into the container (Deploy), and for
-- cri containers it must be recent enough (Version). An experiment with a timeout is polled until it
-- ends (Polling). A clean-up runs from time to time beside the reconciler and takes all finalizers from
-- resources that stay in phase Destroying (Reconcile/CleanUp). Beside it stand the file system that injects I/O faults (HookFs) and the webhook
-- that puts it into a pod (Webhook).
--
-- Files and sources:
--   Api                  pkg/apis/chaosblade/v1alpha1/types.go, and the response record of the
--                        experiment framework
--   Reconcile/Defs       pkg/controller/chaosblade/controller.go: `reconcile` is Reconcile, with one
--                        function per branch (`drop_finalizer`, `finalize_chaos_blade`, `initialize`,
--                        `create_experiments`, `update_experiments`); `contains` and `remove`
--   Reconcile/*          Finalizers, Loops (what the loops compute), Phases (one reconciliation),
--                        Machine and Effects (an abstract machine on the phases, which Reconcile
--                        refines), Lifecycle (several reconciliations, against an API server),
--                        CleanUp (startPeriodicallyCleanUpBlade and periodicallyCleanUpBlade of
--                        controller.go) and Abandoned (what the clean-up removes)
--   Predicate            pkg/controller/chaosblade/predicate.go; Predicate/Events has the theorems
--   Dispatch/Defs        exec/controller.go, CreateDestroyedStatus of exec/model/controller.go;
--                        Dispatch/Scopes and Dispatch/Statuses have the theorems
--   Model/Flags          exec/model/model.go, CheckFlags of exec/model/filter.go, CheckPodFlags of
--                        exec/model/filter_pod.go, ExtractExpModelFromExperimentSpec
--   Model/FlagNames      the groups of flags of exec/model/model.go and GetResourceFlagNames
--   Model/Count          GetResourceCount of exec/model/controller.go
--   Model/Shuffle        randomPodSelected of exec/model/filter_pod.go
--   Model/Select         filterByOtherFlags of exec/model/filter_pod.go and of exec/node/filter.go;
--                        Model/Selected has the theorems
--   Model/Identifier     exec/model/context.go
--   Pods                 exec/pod/delete.go, exec/pod/failexp.go, isPodReady of exec/pod/fsexp.go
--   PodIo                exec/pod/fsexp.go: the executor of the action "IO"
--   Query                ParseLabels and MapContains of exec/model/filter.go, resourceFunc of
--                        exec/model/filter_pod.go and of exec/node/filter.go
--   Scope                exec/pod/controller.go, exec/node/controller.go, Exec of
--                        exec/model/controller.go, GetExpActionModelSpec of exec/model/model.go; the
--                        queries are parameters, which Query fills
--   Containers           exec/container/controller.go: the choice of containers (Containers/Defs),
--                        Create and Destroy (Containers/Controller)
--   Commands             exec/model/executor.go, executor_copy.go and executor_nsexec.go: the lookup
--                        of the tool's pod on a node (Commands/Defs), which command is run in which pod
--                        (Commands/Targets) and the identifiers (Commands/Identifiers)
--   Deploy               exec/model/deploy.go, download.go, DeployToPod of exec/model/copy.go,
--                        getDeployMode and deployChaosBlade of exec/model/executor_copy.go; Deploy/Tar
--                        is makeTar and recursiveTar of copy.go, over the disk and the tar writer
--   Daemonset            pkg/controller/chaosblade/daemonset.go, which nothing calls now
--   Channel              channel/client.go: how the two outputs of a stream become an answer
--   Version              version/version.go
--   Polling              checkExperimentStatus of exec/model/executor.go
--   Parallel             exec/model/parallelizer.go, ExecCommandInPodExecutor.Exec of
--                        exec/model/executor_copy.go and execCommands of exec/model/executor.go: the
--                        workers are a step relation over the channel and the shared variables;
--                        Parallel/Executor is Exec of both executors as the relation `Executes`
--   HookFs               pkg/hookfs/hook.go, server.go and types.go; HookFs/Client is client.go
--   Webhook              pkg/webhook/pod/mutator.go
--   Kube                 the fields of Kubernetes objects that the selection reads
--   Base                 tests, lists, texts with their trimming, paths, decimals, integers with
--                        strconv.Atoi
--
-- How the code is modelled. A function that changes the world takes and returns a state `W`, and what
-- is outside the repository is a parameter over it: the Kubernetes clients, JSON, the random source,
-- the clock, float64 and the order in which Go ranges over a map. Where a theorem needs documented
-- behaviour of one of these it is a named hypothesis (`Quiet` for the API server behind the
-- reconciler, `IsIeee` for float64, `IsIntn` for rand.Intn, `IsShell` for the commands test, mkdir and
-- tar in a container, `IsServed` for the HTTP and JSON between the operator and the file system's
-- server, `IsServer` for the API server behind the clean-up), and a test module holds an instance of
-- it. A panic is the outcome `panics`.
-- A slice that is overwritten while it is ranged over (`remove`) is modelled with its array.
--
-- Bounds and termination. The sequential loops of the code run over lists or count down, so their
-- models are structural; the workers take at most three steps for each job. Integers are exact;
-- strconv.Atoi refuses what leaves 64 bits, and the counts that come after it are clamped. A conversion
-- to uint32 is written out (% 2 ^ 32). The decimals of a number n are computed with n + 1 digits of
-- fuel, more than it has. `recursive_tar` recurses over directories; its bound is enough when it is the
-- depth of the tree. Texts are ASCII: a byte is a character.
--
-- Not modelled: the streams over SPDY and the pipe of a copy (parameters: input and output); the
-- programs under cmd and pkg/runtime (start-up); the tables of flags, examples and help texts in
-- exec/node/node.go, exec/pod/pod.go and exec/container/container.go, about a thousand lines of
-- constants of which only the names that the code looks up matter here; generated code; logging and
-- the printing of the version. A nil slice or map is an empty one unless a module says otherwise.
pub mod Base
pub mod Api
pub mod Reconcile
pub mod Predicate
pub mod Dispatch
pub mod Kube
pub mod Model
pub mod HookFs
pub mod Webhook
pub mod Pods
pub mod Containers
pub mod Parallel
pub mod Scope
pub mod Commands
pub mod Channel
pub mod Daemonset
pub mod Deploy
pub mod Version
pub mod Query
pub mod PodIo
pub mod Polling
