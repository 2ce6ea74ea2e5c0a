-- ===== src/Polling/Tests.antt =====
-- A world in which every injection is destroyed, one in which none is, and the theorems there.
use chaosblade_operator.Base.{
  String, ◌≡◌, ◌==◌, inl, inr, if◌then◌else◌, refl, true, false, Option, none, some, [], ◌∷◌, pos,
}
use chaosblade_operator.Api.{
  ResourceStatus, ChaosBlade, ClusterPhase, running, destroyed, destroyed_state, no_message,
}
use chaosblade_operator.Model.Flags.{ExpModel}
use chaosblade_operator.Model.Identifier.{ContainerObjectMeta}
use chaosblade_operator.Commands.Defs.{ExperimentIdentifierInPod}
use chaosblade_operator.Polling.Defs.{
  World, Question, poll, polls, timeout_of, sleep_time, waits_forever, still_running, question,
}
use chaosblade_operator.Polling.Ticks.{IsAlive, poll_live, poll_cleans}

-- The state is the stored resource, if there is one.
abbrev Store : Type 0
Store = Option ChaosBlade

abbrev answering : Option String → World Store
answering answer = record {
  ask = λ q w. (answer, w);
  get = λ name w. (w, w);
  update_status = λ cb w. (none, some cb);
  delete = λ name w. (none, none);
}

abbrev stored : ClusterPhase → ChaosBlade
stored phase = record {
  name = "b1";
  finalizers = [];
  deletion_timestamp = none;
  annotations = [];
  spec = record { experiments = [] };
  status = record { phase = phase; exp_statuses = [] };
}

abbrev meta : String → ContainerObjectMeta
meta pod = record {
  id = "";
  container_runtime = "";
  container_id = "";
  container_name = "";
  pod_name = pod;
  node_name = "n1";
  namespace = "default";
}

abbrev identifier : String → String → ExperimentIdentifierInPod
identifier pod tool = record {
  meta = meta pod;
  command = "";
  error = no_message;
  code = none;
  chaosblade_pod_name = tool;
}

abbrev status : String → ResourceStatus
status pod = record {
  id = pod;
  state = "Success";
  code = none;
  error = no_message;
  success = true;
  kind = "node";
  identifier = pod;
}

abbrev model : ExpModel
model = record {
  target = "cpu";
  scope = "node";
  action_name = "load";
  action_flags = ("timeout", "60") ∷ [];
  action_programs = [];
  action_process_hang = false;
}

sixty :
    (polls false model (status "a" ∷ []) ≡ true)
    × (sleep_time (timeout_of (λ d. 0) "60") ≡ pos 60000000000)
unfolding polls sleep_time timeout_of
sixty = (refl, refl)

-- The statuses stand in the order in which the jobs ended, and the identifiers in their own: the tool
-- on the node of "b" is asked for the experiment on "a".
asked_elsewhere :
    (question
      (answering none)
      "/opt/chaosblade"
      "chaosblade"
      model
      (status "default/n1/a")
      (identifier "b" "tool-b")).pod_name
    ≡ "tool-b"
unfolding question
asked_elsewhere = refl

-- The injection on the node of "tool-a" is destroyed, the one behind it is not.
abbrev answers : Question → Option String
answers q = some (if q.pod_name == "tool-a" then destroyed_state else "Success")

abbrev partly : World Store
partly = record (answering none) { ask = λ q w. (answers q, w) }

poll_live_example :
    poll partly "/opt/chaosblade" "chaosblade" model "b1"
      (status "default/n1/a" ∷ status "default/n1/b" ∷ [])
      (identifier "a" "tool-a" ∷ identifier "b" "tool-b" ∷ [])
      (false ∷ false ∷ [])
      (some (stored running))
    ≡ (still_running, some (stored running))
unfolding IsAlive question
poll_live_example =
    poll_live partly "/opt/chaosblade" "chaosblade" model answers (λ q w. refl) "b1"
      (status "default/n1/a" ∷ status "default/n1/b" ∷ [])
      (identifier "a" "tool-a" ∷ identifier "b" "tool-b" ∷ []) (inr (inl (refl, λ e. cc))) refl
      (false ∷ false ∷ []) (some (stored running))

poll_cleans_example :
    poll
      (answering (some destroyed_state))
      "/opt/chaosblade"
      "chaosblade"
      model
      "b1"
      (status "default/n1/a" ∷ [])
      (identifier "a" "" ∷ [])
      (false ∷ false ∷ [])
      (some (stored running))
    ≡ (waits_forever, none)
poll_cleans_example =
    poll_cleans (answering (some destroyed_state)) "/opt/chaosblade" "chaosblade" model
      (λ q w. refl) "b1" (status "default/n1/a" ∷ []) (identifier "a" "" ∷ []) refl (stored running)
      (stored destroyed) (some (stored running)) (some (stored destroyed)) none refl refl refl refl
      refl refl []
