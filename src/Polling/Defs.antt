-- ===== src/Polling/Defs.antt =====
-- checkExperimentStatus of exec/model/executor.go. The commands in the pods and the API server are
-- parameters over a state `W`; what the ticker and the context come to is a list, with whether the
-- context is done at each tick.
use chaosblade_operator.Base.{
  ℕ, ◌-◌, ◌*◌, ◌%◌, ◌^◌, String, ◌==◌, Bool, true, false, not, ◌&&◌, Option, none, some, List, [],
  ◌∷◌, if◌then◌else◌, index, ltb, magnitude, ℤ, pos, negsuc,
}
use chaosblade_operator.Api.{
  ResourceStatus, ChaosBlade, ClusterPhase, destroyed, destroyed_state, Outcome, returns, panics,
}
use chaosblade_operator.Model.Flags.{ExpModel}
use chaosblade_operator.Model.Identifier.{parse_identifier}
use chaosblade_operator.Commands.Defs.{ExperimentIdentifierInPod, get_target_chaosblade_bin}

-- Whether the polling is started.
unfoldable pub polls : Bool → ExpModel → List ResourceStatus → Bool
polls is_destroy model [] = false
polls is_destroy model (s ∷ ss) = not is_destroy && not (index model.action_flags "timeout" == "")

-- strconv.ParseUint(s, 10, 64).
unfoldable pub parse_uint : String → Option ℕ
unfolding magnitude
parse_uint s = elim (magnitude s) [ none ↦ none | some n ↦ if ltb n (2 ^ 64) then some n else none ]

-- The seconds of the flag, with those of time.ParseDuration.
unfoldable pub timeout_of : (String → ℕ) → String → ℕ
unfolding parse_uint
timeout_of seconds value = elim (parse_uint value) [ some n ↦ n | none ↦ seconds value ]

abbrev int64 : ℕ → ℤ
int64 n = if ltb n (2 ^ 63) then pos n else negsuc (2 ^ 64 - 1 - n)

-- time.Duration(timeout) * time.Second, in nanoseconds.
unfoldable pub sleep_time : ℕ → ℤ
sleep_time timeout = int64 (timeout * 1000000000 % 2 ^ 64)

abbrev tool_container : String
tool_container = "chaosblade-tool"

-- Where the status of one injection is asked for.
pub record Question : Type 0 where
  pub pod_name : String
  pub pod_namespace : String
  pub container_name : String
  pub command : List String

abbrev pub is_destroyed : ClusterPhase → Bool
is_destroyed destroyed = true
is_destroyed _ = false

-- How a tick leaves the loop: it waits for the next one, or it waits on the stopped ticker.
pub data Left : Type 0 where
  again stopped : Left

-- How the loop over the ticks ends: the context is done, it waits on a stopped ticker, it panics, or
-- there are no more ticks to look at.
pub data Ended : Type 0 where
  timed_out waits_forever crashed still_running : Ended

-- The commands: the text of "Status" in the result, or nothing for a response that failed. The API
-- server: an error is its text.
pub record World (W : Type 0) : Type 0 where
  pub ask : Question → W → Option String × W
  pub get : String → W → Option ChaosBlade × W
  pub update_status : ChaosBlade → W → Option String × W
  pub delete : String → W → Option String × W

module _ {W : Type 0} (world : World W) (operator_path tool_namespace : String)
    (model : ExpModel) where
  open world use {ask, get, update_status, delete}

  -- The identifier at the index of the status says whether the pod of the tool is asked.
  unfoldable pub question : ResourceStatus → ExperimentIdentifierInPod → Question
  unfolding parse_identifier get_target_chaosblade_bin
  question s identifier =
      let meta = parse_identifier s.identifier in
      let command = get_target_chaosblade_bin operator_path model ∷ "status" ∷ s.id ∷ [] in
      if identifier.chaosblade_pod_name == ""
      then record {
        pod_name = meta.pod_name;
        pod_namespace = meta.namespace;
        container_name = meta.container_name;
        command = command;
      }
      else record {
        pod_name = identifier.chaosblade_pod_name;
        pod_namespace = tool_namespace;
        container_name = tool_container;
        command = command;
      }

  abbrev pub says_destroyed : Option String → Bool
  says_destroyed none = false
  says_destroyed (some status) = status == destroyed_state

  abbrev pub after_ask : (W → Outcome Bool × W) → Option String × W → Outcome Bool × W
  after_ask others (status, w) = if says_destroyed status then others w else (returns false, w)

  -- The loop over the statuses, with the identifiers from the same index on.
  unfoldable pub all_destroyed :
      List ResourceStatus → List ExperimentIdentifierInPod → W → Outcome Bool × W
  unfolding question
  all_destroyed [] identifiers w = (returns true, w)
  all_destroyed (s ∷ ss) [] w =
      let rest = all_destroyed ss [] w in if s.success then (panics, w) else rest
  all_destroyed (s ∷ ss) (i ∷ is) w =
      let others = all_destroyed ss is in
      if s.success then after_ask others (ask (question s i) w) else others w

  abbrev pub after_delete : Option String × W → Left × W
  after_delete (some err, w) = (again, w)
  after_delete (none, w) = (stopped, w)

  -- What is done with the resource when all is destroyed; the Boolean says whether its phase is
  -- Destroyed.
  abbrev pub at_phase : String → ChaosBlade → Bool → W → Left × W
  at_phase name cb true w = after_delete (delete name w)
  at_phase name cb false w =
      (again, (update_status (record cb { status = record cb.status { phase = destroyed } }) w).1)

  unfoldable pub clean_up : String → Option ChaosBlade × W → Left × W
  clean_up name (none, w) = (again, w)
  clean_up name (some cb, w) = at_phase name cb (is_destroyed cb.status.phase) w

  abbrev pub judge : String → Outcome Bool × W → Outcome Left × W
  judge name (panics, w) = (panics, w)
  judge name (returns false, w) = (returns again, w)
  judge name (returns true, w) = let (left, w') = clean_up name (get name w) in (returns left, w')

  unfoldable pub tick :
      String → List ResourceStatus → List ExperimentIdentifierInPod → W → Outcome Left × W
  unfolding all_destroyed clean_up
  tick name statuses identifiers w = judge name (all_destroyed statuses identifiers w)

  abbrev pub go_on : (W → Ended × W) → Outcome Left × W → Ended × W
  go_on more (panics, w) = (crashed, w)
  go_on more (returns stopped, w) = (waits_forever, w)
  go_on more (returns again, w) = more w

  unfoldable pub poll :
      String → List ResourceStatus → List ExperimentIdentifierInPod → List Bool → W → Ended × W
  unfolding tick
  poll name statuses identifiers [] w = (still_running, w)
  poll name statuses identifiers (true ∷ ticks) w = (timed_out, w)
  poll name statuses identifiers (false ∷ ticks) w =
      go_on (poll name statuses identifiers ticks) (tick name statuses identifiers w)
