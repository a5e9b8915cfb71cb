-- ===== src/CustomAction/Report.antt =====
-- The thread that reports the progress of an action
-- (src/modules/mission_manager/CustomActionHandler.cpp, `send_progress_status`).
use autopilot_manager.Common.{ℕ, Bool, true, false, Option, none, some, List, [], ◌∷◌}
use autopilot_manager.CustomAction.{Result, ActionToExecute, CustomActionHandler}

-- `respond_custom_action`, with the progress and the result.
pub record Response (W : Type 0) : Type 0 where
  pub id : ℕ
  pub progress : W
  pub result : Result

abbrev pub is_unknown : Result → Bool
is_unknown Result.unknown = true
is_unknown _ = false

module _ {W : Type 0} where
  abbrev pub respond :
      ActionToExecute → W → Result → Option (List (Response W)) → Option (List (Response W))
  respond action progress result none = none
  respond action progress result (some sent) =
      some (record { id = action.id; progress = progress; result = result } ∷ sent)

module _ {W S : Type 0} where
  -- The thread that reports the progress of an action, by the states that its turns see, with what it
  -- sends; `none` while it goes on. A turn is undefined where there is no result or no progress.
  unfoldable pub send_progress_status :
      ActionToExecute → List (CustomActionHandler W S) → Option (List (Response W))
  send_progress_status action [] = none
  send_progress_status action (h ∷ seen) = elim h.action_stopped [
    | true ↦ some []
    | false ↦ elim h.actions_result [
      | [] ↦ none
      | (result ∷ _) ↦ elim (is_unknown result) [
        | true ↦ some []
        | false ↦ elim h.actions_progress [
          | [] ↦ none
          | (progress ∷ _) ↦ respond action progress result (send_progress_status action seen)
        ]
      ]
    ]
  ]
