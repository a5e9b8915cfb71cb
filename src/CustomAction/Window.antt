-- ===== src/CustomAction/Window.antt =====
-- When the thread that reports the progress of an action ends
-- (src/modules/mission_manager/CustomActionHandler.cpp, `send_progress_status`). At the end of an action
-- `_action_stopped` is set for 200 ms, which the thread has to see, unless the result is `Unknown`.
use autopilot_manager.Common.{
  ℕ, zero, suc, ◌+◌, ◌≤◌, ◌<◌, ◌≡◌, ◌≢◌, refl, Bool, true, false, none, some, List, [], ◌∷◌, ◌++◌,
  map, All, length, replicate, Double, arith,
}
use native.Mathlib.Decide.{dec_lt}
use autopilot_manager.CustomAction.{
  Stage, ActionMetadata, ActionToExecute, CustomActionHandler, Surroundings, is_success,
  process_custom_action,
}
use autopilot_manager.CustomAction.Stages.{all_pass}
use autopilot_manager.CustomAction.Outcomes.{first_failure_stops}
use autopilot_manager.CustomAction.Report.{is_unknown, send_progress_status}

module _ {W S : Type 0} where
  -- The handler has a result and a progress to report.
  abbrev pub has_report : CustomActionHandler W S → Bool
  has_report h = elim h.actions_result [
    | [] ↦ false
    | (_ ∷ _) ↦ elim h.actions_progress [ [] ↦ false | (_ ∷ _) ↦ true ]
  ]

  -- A turn that sees the handler so reports and goes on: it is not stopped, and its result is known.
  abbrev pub goes_on : CustomActionHandler W S → Bool
  goes_on h = elim h.action_stopped [
    | true ↦ false
    | false ↦ elim h.actions_result [
      | [] ↦ false
      | (result ∷ _) ↦ elim (is_unknown result) [
        | true ↦ false
        | false ↦ elim h.actions_progress [ [] ↦ false | (_ ∷ _) ↦ true ]
      ]
    ]
  ]

  turn_goes_on :
      (action : ActionToExecute) (h : CustomActionHandler W S)
      (seen : List (CustomActionHandler W S))
      → goes_on h ≡ true
      → send_progress_status action seen ≡ none
      → send_progress_status action (h ∷ seen) ≡ none
  unfolding send_progress_status
  turn_goes_on action h seen on rest = ground (arith, rest)

  turn_ends :
      (action : ActionToExecute) (h : CustomActionHandler W S)
      (seen : List (CustomActionHandler W S))
      → has_report h ≡ true
      → send_progress_status action seen ≢ none
      → send_progress_status action (h ∷ seen) ≢ none
  unfolding send_progress_status
  turn_ends action h seen report rest e = ground (arith, rest)

  turn_stops :
      (action : ActionToExecute) (h : CustomActionHandler W S)
      (seen : List (CustomActionHandler W S))
      → h.action_stopped ≡ true
      → send_progress_status action (h ∷ seen) ≢ none
  unfolding send_progress_status
  turn_stops action h seen stopped e = ground (arith, stopped)

  goes_on_before :
      (action : ActionToExecute) (before seen : List (CustomActionHandler W S))
      → All (λ h. goes_on h ≡ true) before
      → send_progress_status action seen ≡ none
      → send_progress_status action (before ++ seen) ≡ none
  goes_on_before action [] seen h e = e
  goes_on_before action (a ∷ before) seen (here, h) e =
      turn_goes_on action a (before ++ seen) here (goes_on_before action before seen h e)

  goes_on_for_ever :
      (action : ActionToExecute) (h : CustomActionHandler W S) (turns : ℕ)
      → goes_on h ≡ true
      → send_progress_status action (replicate turns h) ≡ none
  unfolding send_progress_status
  goes_on_for_ever action h zero on = refl
  goes_on_for_ever action h (suc turns) on =
      turn_goes_on action h (replicate turns h) on (goes_on_for_ever action h turns on)

-- The times of the turns, in milliseconds, by the first and the pauses after each.
abbrev pub turns : ℕ → List ℕ → List ℕ
turns first [] = first ∷ []
turns first (pause ∷ pauses) = first ∷ turns (first + pause) pauses

abbrev pub total : List ℕ → ℕ
total [] = 0
total (pause ∷ pauses) = pause + total pauses

module _ {W S : Type 0} (action : ActionToExecute) (seen_at : ℕ → CustomActionHandler W S)
    (window : ℕ) (reports : (t : ℕ) → has_report (seen_at t) ≡ true)
    (stopped : (t : ℕ) → window ≤ t → t < window + 200 → (seen_at t).action_stopped ≡ true) where
  -- If the handler has something to report at every time, `_action_stopped` is set from some time on for
  -- 200 ms, the thread's first turn is before the end of these, the pauses between its turns are at
  -- most 200 ms, and its turns go on until then, then the thread ends.
  pub report_ends :
      (first : ℕ) (pauses : List ℕ)
      → first < window + 200
      → All (λ pause. pause ≤ 200) pauses
      → window ≤ first + total pauses
      → send_progress_status action (map seen_at (turns first pauses)) ≢ none
  report_ends first [] early short reached =
      turn_stops action (seen_at first) [] (stopped first (omega arith) early)
  report_ends first (pause ∷ pauses) early (pause_short, short) reached =
      let later = map seen_at (turns (first + pause) pauses) in
      elim (dec_lt first window) [
        | yes before ↦
            turn_ends action (seen_at first) later (reports first)
              (report_ends (first + pause) pauses (omega arith) short (omega arith))
        | no within ↦ turn_stops action (seen_at first) later (stopped first (omega arith) early)
      ]

module _ {W S : Type 0} (d : Double W) where
  -- If the stages before one pass, that one fails without a cancellation before it, the handler not being
  -- stopped at first, and the turns of the thread that reports the action first see the handler with a
  -- known result and not stopped, and then only as it is after the action, then the thread never ends,
  -- however many turns it makes.
  pub report_never_ends :
      (m : ActionMetadata S) (front back : List (Stage S)) (stage : Stage S) (around : Surroundings)
      (h : CustomActionHandler W S) (action : ActionToExecute)
      (before : List (CustomActionHandler W S))
      → all_pass around.stage_run 0 front ≡ true
      → (around.stage_run (length front)).cancelled_before ≡ false
      → is_success (around.stage_run (length front)).result ≡ false
      → All (λ seen. goes_on seen ≡ true) before
      → let n = record m { stages = front ++ stage ∷ back } in
        (final : CustomActionHandler W S) × (process_custom_action ⦃d = d⦄ n around
            (record h { action_stopped = false })
          ≡ some (final, front ++ stage ∷ []))
        × ((later : ℕ) → send_progress_status action (before ++ replicate later final) ≡ none)
  report_never_ends m front back stage around h action before pass quiet failed on =
      let (state, e) = first_failure_stops d m front back stage around h pass quiet failed in
      (_, e, λ later. goes_on_before action before _ on (goes_on_for_ever action _ later refl))
