-- ===== src/CustomAction/Outcomes.antt =====
-- How the processing of an action ends (src/modules/mission_manager/CustomActionHandler.cpp).
use autopilot_manager.Common.{
  append-nil, suc, ◌<◌, ◌^◌, ◌≡◌, refl, true, false, some, List, [], ◌∷◌, ◌++◌, length, ap, ◌∙◌,
  Double,
}
use autopilot_manager.Types.{LandedState}
use autopilot_manager.CustomAction.{
  Result, Stage, ActionMetadata, CustomActionHandler, Surroundings, is_success, with_finish,
  with_report, progress_of, execute_custom_action, process_custom_action, end_progress_report,
}
use autopilot_manager.CustomAction.Stages.{all_pass, with_front, report_of, front_report}
use autopilot_manager.CustomAction.Progress.{
  IsPercent, zero_add, report_complete, begun, ended, report_front, running_front, execute_front,
  failed_lem, cancelled_lem, end_unchanged, end-success, execute-all, last_report, stopped_lem,
}

module _ {W S : Type 0} (d : Double W) where
  -- An action whose stages all pass, at least one of them, on a handler that is not stopped: every stage is
  -- executed, in the order of the metadata; its progress is 100, its result is the one that ends the
  -- progress report, and the handler is ready for the next action. There are fewer than 2 ^ 32 stages.
  pub all_stages_succeed :
      IsPercent d
      → (m : ActionMetadata S) (stage : Stage S) (stages : List (Stage S)) (around : Surroundings)
        (h : CustomActionHandler W S)
      → all_pass around.stage_run 0 (stage ∷ stages) ≡ true
      → length stages < 2 ^ 32
      → let n = record m { stages = stage ∷ stages } in
        (state : LandedState) × (process_custom_action ⦃d = d⦄ n around
            (record h { action_stopped = false })
          ≡ some (ended d n h state (d.lit 100 0) Result.unknown, stage ∷ stages))
  unfolding process_custom_action execute_custom_action
  all_stages_succeed law m stage stages around h pass few =
      let n = record m { stages = stage ∷ stages } in
      let (state, e) =
        execute-all d around.stage_run (suc (length stages)) (stage ∷ stages) (begun d n h)
          h.actions_progress h.actions_result (d.lit 0 0, Result.in_progress) pass in
      (
        state,
        ap (λ r. with_report ⦃d = d⦄ (with_finish r)) e
            ∙ ap
                (λ report. some (
                  end_progress_report ⦃d = d⦄ (ended d n h state report.0 report.1),
                  stage ∷ stages,
                ))
                (last_report d (suc (length stages)) 0 stage stages (d.lit 0 0, Result.in_progress)
                  ∙ ap (λ k. report_of ⦃d = d⦄ (progress_of ⦃d = d⦄ k (suc (length stages))))
                      (zero_add (length stages))
                  ∙ report_complete d law (length stages) few)
            ∙ ap (λ after. some (after, stage ∷ stages)) (end-success d law n h state),
      )

  -- An action whose first stages pass and whose next stage fails, without a cancellation before it, on a
  -- handler that is not stopped: the stages up to the failing one are executed, in order, and none after it;
  -- its result is an error, its progress the one of the stages that passed, and the handler is ready for the
  -- next action.
  pub first_failure_stops :
      (m : ActionMetadata S) (front back : List (Stage S)) (stage : Stage S) (around : Surroundings)
      (h : CustomActionHandler W S)
      → all_pass around.stage_run 0 front ≡ true
      → (around.stage_run (length front)).cancelled_before ≡ false
      → is_success (around.stage_run (length front)).result ≡ false
      → let n = record m { stages = front ++ stage ∷ back } in
        (state : LandedState) × (process_custom_action ⦃d = d⦄ n around
            (record h { action_stopped = false })
          ≡ some (
            ended d n h state
                (front_report ⦃d = d⦄ (length n.stages) 0 front (d.lit 0 0, Result.in_progress)).0
                Result.error,
            front ++ stage ∷ [],
          ))
  unfolding process_custom_action
  first_failure_stops m front back stage around h pass quiet failed =
      let (state, e) = execute_front d m front back stage around h pass in
      (
        state,
        ap (with_report ⦃d = d⦄) (
              e
              ∙ ap (λ r. with_finish (with_front front r))
                  (failed_lem d around.stage_run (length (front ++ stage ∷ back)) (length front)
                    stage back (running_front d m front back stage h state) quiet failed))
            ∙ ap (λ after. some (after, front ++ stage ∷ []))
                (end_unchanged d (record m { stages = front ++ stage ∷ back }) h state
                  (report_front d m front back stage).0 Result.error refl),
      )

  -- An action that a cancellation stops before one of its stages, those before having passed, on a handler
  -- that is not stopped: no further stage is executed, and the handler is ready for the next action.
  pub cancelled_stops :
      (m : ActionMetadata S) (front back : List (Stage S)) (stage : Stage S) (around : Surroundings)
      (h : CustomActionHandler W S)
      → all_pass around.stage_run 0 front ≡ true
      → (around.stage_run (length front)).cancelled_before ≡ true
      → let n = record m { stages = front ++ stage ∷ back } in
        let report =
          front_report ⦃d = d⦄ (length n.stages) 0 front (d.lit 0 0, Result.in_progress) in
        (state : LandedState) × (process_custom_action ⦃d = d⦄ n around
            (record h { action_stopped = false })
          ≡ some (end_progress_report ⦃d = d⦄ (ended d n h state report.0 report.1), front))
  unfolding process_custom_action
  cancelled_stops m front back stage around h pass cancelled =
      let (state, e) = execute_front d m front back stage around h pass in
      (
        state,
        ap (with_report ⦃d = d⦄) (
              e
              ∙ ap (λ r. with_finish (with_front front r))
                  (cancelled_lem d around.stage_run (length (front ++ stage ∷ back)) (length front)
                    back stage (running_front d m front back stage h state) cancelled))
            ∙ ap
                (λ l. some (
                  end_progress_report ⦃d = d⦄ (
                      ended d (record m { stages = front ++ stage ∷ back }) h state
                        (report_front d m front back stage).0
                        (report_front d m front back stage).1),
                  l,
                ))
                (append-nil front),
      )

  -- A cancellation that came while no action was processed stops the next one: an action with a stage
  -- executes none of its stages, whatever happens around them; its result stays in progress, and only then
  -- is the cancellation forgotten.
  pub stale_cancellation_skips :
      (m : ActionMetadata S) (stage : Stage S) (stages : List (Stage S)) (around : Surroundings)
      (h : CustomActionHandler W S)
      → let n = record m { stages = stage ∷ stages } in
        process_custom_action ⦃d = d⦄ n around (record h { action_stopped = true })
        ≡ some (ended d n h h.landed_state (d.lit 0 0) Result.in_progress, [])
  unfolding process_custom_action execute_custom_action
  stale_cancellation_skips m stage stages around h =
      ap (λ r. with_report ⦃d = d⦄ (with_finish r))
        (stopped_lem d around.stage_run (suc (length stages)) 0 (stage ∷ stages)
          (begun d (record m { stages = stage ∷ stages }) h))
      ∙ ap (λ after. some (after, []))
          (end_unchanged d (record m { stages = stage ∷ stages }) h h.landed_state (d.lit 0 0)
            Result.in_progress refl)
