-- ===== src/CustomAction/Stages.antt =====
-- The stages of an action (src/modules/mission_manager/CustomActionHandler.cpp,
-- `execute_custom_action`).
use autopilot_manager.Common.{
  ℕ, suc, ◌+◌, ◌≡◌, refl, Bool, true, false, not, ◌&&◌, Option, none, some, List, [], ◌∷◌, ◌++◌,
  length, ap, ◌∙◌, sym, Double, arith, if◌then◌else◌,
}
use autopilot_manager.Types.{LandedState}
use autopilot_manager.CustomAction.{
  Result, TransitionCondition, Stage, CustomActionHandler, Poll, StageRun, with_stage, is_success,
  not_landed, not_in_air, await_transition, progress_of, update_action_progress_from_stage,
  execute_stages,
}
use autopilot_manager.CustomAction.Waits.{reached, wait_reached}

-- The wait for the next stage ends without a cancellation.
abbrev pub transition_ends : TransitionCondition → List Poll → Bool
transition_ends TransitionCondition.on_timeout polls = true
transition_ends TransitionCondition.on_landing_complete polls = reached not_landed polls
transition_ends TransitionCondition.on_takeoff_complete polls = reached not_in_air polls
transition_ends TransitionCondition.other polls = true

-- The stage is executed with success and the next one is reached, without a cancellation.
abbrev pub passes : TransitionCondition → StageRun → Bool
passes condition run =
    (not run.cancelled_before && is_success run.result)
    && (not run.cancelled_during && transition_ends condition run.polls)

before_of :
    (c : TransitionCondition) (run : StageRun) → passes c run ≡ true → run.cancelled_before ≡ false
before_of c run h = ground arith

success_of :
    (c : TransitionCondition) (run : StageRun) → passes c run ≡ true → is_success run.result ≡ true
success_of c run h = ground arith

during_of :
    (c : TransitionCondition) (run : StageRun) → passes c run ≡ true → run.cancelled_during ≡ false
during_of c run h = ground arith

ends_of :
    (c : TransitionCondition) (run : StageRun)
    → passes c run ≡ true
    → transition_ends c run.polls ≡ true
ends_of c run h = ground arith

and_left : (a b : Bool) → a && b ≡ true → a ≡ true
and_left a b h = ground arith

and_right : (a b : Bool) → a && b ≡ true → b ≡ true
and_right a b h = ground arith

pub next_index : (i n : ℕ) → (i + 1) + n ≡ i + suc n
next_index i n = omega arith

pub add_zero : (i : ℕ) → i + 0 ≡ i
add_zero i = omega arith

module _ {S : Type 0} where
  abbrev pub all_pass : (ℕ → StageRun) → ℕ → List (Stage S) → Bool
  all_pass runs i [] = true
  all_pass runs i (stage ∷ stages) =
      passes stage.state_transition_condition (runs i) && all_pass runs (i + 1) stages

module _ {W S : Type 0} where
  abbrev pub with_front :
      List (Stage S)
      → Option (CustomActionHandler W S × List (Stage S))
      → Option (CustomActionHandler W S × List (Stage S))
  with_front front none = none
  with_front front (some (h, executed)) = some (h, front ++ executed)

  with_nothing : (r : Option (CustomActionHandler W S × List (Stage S))) → with_front [] r ≡ r
  with_nothing none = refl
  with_nothing (some (h, executed)) = refl

  with_both :
      (stage : Stage S) (front : List (Stage S))
      (r : Option (CustomActionHandler W S × List (Stage S)))
      → with_stage stage (with_front front r) ≡ with_front (stage ∷ front) r
  with_both stage front none = refl
  with_both stage front (some (h, executed)) = refl

  -- A handler that executes an action: its progress and result are the newest ones.
  abbrev pub running :
      CustomActionHandler W S
      → List W
      → List Result
      → LandedState
      → W
      → Result
      → CustomActionHandler W S
  running h ps rs state progress result = record h {
    action_stopped = false;
    landed_state = state;
    actions_progress = progress ∷ ps;
    actions_result = result ∷ rs;
  }

module _ {W : Type 0} ⦃d : Double W⦄ where
  -- The progress and the result that a stage which passed sets.
  abbrev pub report_of : W → W × Result
  report_of progress =
      (progress, if not (d.eq progress (d.lit 100 0)) then Result.in_progress else Result.success)

  -- The same of the last of the stages.
  abbrev pub front_report : {S : Type 0} → ℕ → ℕ → List (Stage S) → W × Result → W × Result
  front_report size i [] report = report
  front_report size i (_ ∷ stages) report =
      front_report size (i + 1) stages (report_of (progress_of i size))

module _ {W S : Type 0} ⦃d : Double W⦄ (h : CustomActionHandler W S) (ps : List W)
    (rs : List Result) where
  await_passed :
      (condition : TransitionCondition) (polls : List Poll) (state : LandedState)
      (report : W × Result)
      → transition_ends condition polls ≡ true
      → (state' : LandedState) × (await_transition condition polls
            (running h ps rs state report.0 report.1)
          ≡ some (running h ps rs state' report.0 report.1))
  unfolding await_transition
  await_passed TransitionCondition.on_timeout polls state report e = (state, refl)
  await_passed TransitionCondition.other polls state report e = (state, refl)
  await_passed TransitionCondition.on_landing_complete polls state report e =
      wait_reached not_landed polls (running h ps rs state report.0 report.1) refl e
  await_passed TransitionCondition.on_takeoff_complete polls state report e =
      wait_reached not_in_air polls (running h ps rs state report.0 report.1) refl e

  update_running :
      (i size : ℕ) (state : LandedState) (report : W × Result)
      → update_action_progress_from_stage i size (running h ps rs state report.0 report.1)
        ≡ running h ps rs state
            (report_of {W = W} (progress_of i size)).0
            (report_of {W = W} (progress_of i size)).1
  unfolding update_action_progress_from_stage
  update_running i size state report = ground arith

  -- The first stage passes: it is executed, and the others follow.
  pub run_one :
      (runs : ℕ → StageRun) (size i : ℕ) (stage : Stage S) (stages : List (Stage S))
      (state : LandedState) (report : W × Result)
      → passes stage.state_transition_condition (runs i) ≡ true
      → (state' : LandedState) × (execute_stages runs size i
            (stage ∷ stages)
            (running h ps rs state report.0 report.1)
          ≡ with_stage stage (
              execute_stages runs size (i + 1) stages (
                running h ps rs state'
                  (report_of {W = W} (progress_of i size)).0
                  (report_of {W = W} (progress_of i size)).1)))
  unfolding execute_stages
  run_one runs size i stage stages state report e =
      let (state', ends_there) =
        await_passed stage.state_transition_condition (runs i).polls state report
          (ends_of stage.state_transition_condition (runs i) e) in
      (
        state',
        rw (before_of stage.state_transition_condition (runs i) e, execute_stages)
            (rw (success_of stage.state_transition_condition (runs i) e) (
              rw
                (
                  during_of stage.state_transition_condition (runs i) e,
                  ends_there,
                  update_running i size state' report,
                )
                refl)),
      )

  pub run_front :
      (runs : ℕ → StageRun) (size i : ℕ) (front back : List (Stage S)) (state : LandedState)
      (report : W × Result)
      → all_pass runs i front ≡ true
      → (state' : LandedState) × (execute_stages runs size i
            (front ++ back)
            (running h ps rs state report.0 report.1)
          ≡ with_front front (
              execute_stages runs size (i + length front) back (
                running h ps rs state'
                  (front_report size i front report).0
                  (front_report size i front report).1)))
  run_front runs size i [] back state report e = (state, rw (add_zero i) (sym (with_nothing _)))
  run_front runs size i (stage ∷ front) back state report e =
      let (state', first) = run_one runs size i stage (front ++ back) state report (
        and_left (passes stage.state_transition_condition (runs i)) (all_pass runs (i + 1) front)
          e) in
      let (state'', others) =
        run_front runs size (i + 1) front back state' (report_of {W = W} (progress_of i size)) (
          and_right (passes stage.state_transition_condition (runs i)) (all_pass runs (i + 1) front)
            e) in
      (
        state'',
        first
            ∙ ap (with_stage stage) others
            ∙ with_both stage front _
            ∙ ap
                (λ k. with_front (stage ∷ front) (
                  execute_stages runs size k back (
                    running h ps rs state''
                      (front_report size (i + 1) front (report_of {W = W} (progress_of i size))).0
                      (front_report size (i + 1) front
                        (report_of {W = W} (progress_of i size))).1)))
                (next_index i (length front)),
      )
