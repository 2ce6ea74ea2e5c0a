-- ===== src/Polling/Ticks.antt =====
-- What the polling does to the resource.
use chaosblade_operator.Base.{
  String, ◌==◌, ◌≡◌, ◌≢◌, refl, ap, ◌∙◌, arith, eq_iff, ◌⊎◌, inl, inr, Bool, true, false, ◌||◌,
  Option, none, some, List, [], ◌∷◌, length, Bool-cases, if◌then◌else◌,
}
use chaosblade_operator.Api.{
  ResourceStatus, ChaosBlade, destroyed, destroyed_state, Outcome, returns,
}
use chaosblade_operator.Model.Flags.{ExpModel}
use chaosblade_operator.Commands.Defs.{ExperimentIdentifierInPod}
use chaosblade_operator.Polling.Defs.{
  World, Question, Left, question, says_destroyed, after_ask, all_destroyed, clean_up, at_phase,
  judge, tick, go_on, Ended, waits_forever, still_running, timed_out, poll, is_destroyed,
  after_delete,
}

abbrev pub any_success : List ResourceStatus → Bool
any_success [] = false
any_success (s ∷ ss) = s.success || any_success ss

abbrev pub any_done : List Bool → Bool
any_done [] = false
any_done (b ∷ bs) = b || any_done bs

module _ {W : Type 0} (world : World W) (operator_path tool_namespace : String)
    (model : ExpModel) where
  abbrev says : Option String → Bool
  says = says_destroyed world operator_path tool_namespace model

  unsaid : (answer : Option String) → answer ≢ some destroyed_state → says answer ≡ false
  unsaid none h = refl
  unsaid (some a) h = elim (Bool-cases (a == destroyed_state)) [
    | inl same ↦ absurd (h (ap some ((eq_iff a destroyed_state).0 same)))
    | inr differ ↦ differ
  ]

  module _ (answer : Option String)
      (asked : (q : Question) (w : W) → world.ask q w ≡ (answer, w)) where
    one_status :
        (any : Bool) (f : W → Outcome Bool × W) (w : W)
        → f w ≡ (returns (if any then says answer else true), w)
        → (b : Bool) (p : Option String × W) → p ≡ (answer, w)
        → (if b then after_ask world operator_path tool_namespace model f p else f w)
          ≡ (returns (if b || any then says answer else true), w)
    one_status any f w rest false p e = rest
    one_status any f w rest true p e =
        ap (after_ask world operator_path tool_namespace model f) e ∙ decided (says answer) any rest
      where
        decided :
            (said any : Bool)
            → f w ≡ (returns (if any then said else true), w)
            → (if said then f w else (returns false, w)) ≡ (returns said, w)
        decided false any rest = refl
        decided true true rest = rest
        decided true false rest = rest

    all_destroyed_lem :
        (ss : List ResourceStatus) (is : List ExperimentIdentifierInPod) (w : W)
        → length ss ≡ length is
        → all_destroyed world operator_path tool_namespace model ss is w
          ≡ (returns (if any_success ss then says answer else true), w)
    unfolding all_destroyed
    all_destroyed_lem [] is w e = refl
    all_destroyed_lem (s ∷ ss) [] w e = absurd (omega arith)
    all_destroyed_lem (s ∷ ss) (i ∷ is) w e =
        one_status (any_success ss) (all_destroyed world operator_path tool_namespace model ss is) w
          (all_destroyed_lem ss is w (omega arith)) s.success _
          (asked (question world operator_path tool_namespace model s i) w)

  -- Some injection that succeeded is not destroyed, by what the question for it is answered.
  unfoldable pub IsAlive :
      (Question → Option String) → List ResourceStatus → List ExperimentIdentifierInPod → Type 0
  IsAlive answers [] is = ⊥
  IsAlive answers (s ∷ ss) [] = ⊥
  IsAlive answers (s ∷ ss) (i ∷ is) =
      ((s.success ≡ true)
        × (answers (question world operator_path tool_namespace model s i) ≢ some destroyed_state))
      ⊎ IsAlive answers ss is

  module _ (answers : Question → Option String)
      (asked : (q : Question) (w : W) → world.ask q w ≡ (answers q, w)) where
    asked_alive :
        (f : W → Outcome Bool × W) (w : W) (said : Option String) (p : Option String × W)
        → p ≡ (said, w)
        → (said ≢ some destroyed_state) ⊎ (f w ≡ (returns false, w))
        → after_ask world operator_path tool_namespace model f p ≡ (returns false, w)
    asked_alive f w said p e (inl alive) =
        ap (after_ask world operator_path tool_namespace model f) e
        ∙ ap (λ b. if b then f w else (returns false, w)) (unsaid said alive)
    asked_alive f w said p e (inr behind) =
        ap (after_ask world operator_path tool_namespace model f) e ∙ either_way (says said)
      where
        either_way : (b : Bool) → (if b then f w else (returns false, w)) ≡ (returns false, w)
        either_way true = behind
        either_way false = refl

    all_destroyed-IsAlive :
        (ss : List ResourceStatus) (is : List ExperimentIdentifierInPod) (w : W)
        → IsAlive answers ss is
        → length ss ≡ length is
        → all_destroyed world operator_path tool_namespace model ss is w ≡ (returns false, w)
    unfolding all_destroyed IsAlive
    all_destroyed-IsAlive [] is w h fits = absurd h
    all_destroyed-IsAlive (s ∷ ss) [] w h fits = absurd h
    all_destroyed-IsAlive (s ∷ ss) (i ∷ is) w (inl (ok, alive)) fits =
        rw (ok, all_destroyed)
          (asked_alive (all_destroyed world operator_path tool_namespace model ss is) w _ _
            (asked (question world operator_path tool_namespace model s i) w) (inl alive))
    all_destroyed-IsAlive (s ∷ ss) (i ∷ is) w (inr h) fits =
        let rest = all_destroyed-IsAlive ss is w h (omega arith) in
        elim (Bool-cases s.success) [
          | inl ok ↦
              rw (ok, all_destroyed)
                (asked_alive (all_destroyed world operator_path tool_namespace model ss is) w _ _
                  (asked (question world operator_path tool_namespace model s i) w) (inr rest))
          | inr failed ↦ rw (failed, all_destroyed) rest
        ]

    -- Each injection has its own answer, as many identifiers as statuses are given, and asking
    -- changes nothing. While the answer for some injection that succeeded, wherever it stands among
    -- them, is not that it is destroyed, polling changes nothing: it goes on until the context is done.
    pub poll_live :
        (name : String) (ss : List ResourceStatus) (is : List ExperimentIdentifierInPod)
        → IsAlive answers ss is
        → length ss ≡ length is
        → (ticks : List Bool) (w : W)
        → poll world operator_path tool_namespace model name ss is ticks w
          ≡ (if any_done ticks then timed_out else still_running, w)
    unfolding poll tick
    poll_live name ss is alive fits [] w = refl
    poll_live name ss is alive fits (true ∷ ticks) w = refl
    poll_live name ss is alive fits (false ∷ ticks) w =
        let more = poll world operator_path tool_namespace model name ss is ticks in
        ap
          (λ r.
            go_on world operator_path tool_namespace model more
              (judge world operator_path tool_namespace model name r))
          (all_destroyed-IsAlive ss is w alive fits)
        ∙ poll_live name ss is alive fits ticks w

  gone :
      ((q : Question) (w : W) → world.ask q w ≡ (some destroyed_state, w))
      → (ss : List ResourceStatus) (is : List ExperimentIdentifierInPod) (w : W)
      → length ss ≡ length is
      → all_destroyed world operator_path tool_namespace model ss is w ≡ (returns true, w)
  gone asked ss is w fits =
      all_destroyed_lem (some destroyed_state) asked ss is w fits
      ∙ ap (λ b. (returns b, w)) (both (any_success ss))
    where
      both : (b : Bool) → (if b then true else true) ≡ true
      both true = refl
      both false = refl

  -- When every injection that succeeded is destroyed (or none did): if the resource can be read, its
  -- phase written and the resource deleted, then the first tick writes the phase Destroyed, the second
  -- deletes the resource, and the loop waits on its stopped ticker from then on.
  pub poll_cleans :
      ((q : Question) (w : W) → world.ask q w ≡ (some destroyed_state, w))
      → (name : String) (ss : List ResourceStatus) (is : List ExperimentIdentifierInPod)
      → length ss ≡ length is
      → (cb cb' : ChaosBlade) (w w1 w2 : W) → world.get name w ≡ (some cb, w)
      → is_destroyed cb.status.phase ≡ false
      → world.update_status (record cb { status = record cb.status { phase = destroyed } }) w
        ≡ (none, w1)
      → world.get name w1 ≡ (some cb', w1)
      → is_destroyed cb'.status.phase ≡ true
      → world.delete name w1 ≡ (none, w2)
      → (ticks : List Bool)
      → poll world operator_path tool_namespace model name ss is (false ∷ false ∷ ticks) w
        ≡ (waits_forever, w2)
  unfolding poll tick clean_up
  poll_cleans asked name ss is fits cb cb' w w1 w2 read live written read' dead deleted ticks =
      let cleaned : (W → Ended × W) → Left × W → Ended × W =
        λ f r. go_on world operator_path tool_namespace model f (returns r.0, r.1) in
      let at = at_phase world operator_path tool_namespace model name in
      let more = poll world operator_path tool_namespace model name ss is in
      let judged = judge world operator_path tool_namespace model name in
      let clean = clean_up world operator_path tool_namespace model name in
      ap (λ r. go_on world operator_path tool_namespace model (more (false ∷ ticks)) (judged r))
        (gone asked ss is w fits)
      ∙ ap (λ r. cleaned (more (false ∷ ticks)) (clean r)) read
      ∙ ap (λ b. cleaned (more (false ∷ ticks)) (at cb b w)) live
      ∙ ap (λ r. more (false ∷ ticks) r.1) written
      ∙ ap (λ r. go_on world operator_path tool_namespace model (more ticks) (judged r))
          (gone asked ss is w1 fits)
      ∙ ap (λ r. cleaned (more ticks) (clean r)) read'
      ∙ ap (λ b. cleaned (more ticks) (at cb' b w1)) dead
      ∙ ap (λ r. cleaned (more ticks) (after_delete world operator_path tool_namespace model r))
          deleted
