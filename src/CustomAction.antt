-- ===== src/CustomAction.antt =====
-- src/modules/mission_manager/CustomActionHandler.cpp: the actions that the autopilot asks for, and the
-- stages and scripts that they run. What the sleeping and waiting threads let happen is input: a
-- cancellation at a point where the code can see it, and the landed states that a loop polls.
use autopilot_manager.Common.{
  ℕ, ◌+◌, ◌-◌, ◌/◌, String, Bool, true, false, not, ◌&&◌, ◌||◌, Option, none, some, List, [], ◌∷◌,
  ℤ, pos, Double, length, leb, ◌==◌, str_eq, if◌then◌else◌,
}
use autopilot_manager.Types.{LandedState, landed_eq}
pub mod Report
pub mod Waits
pub mod Stages
pub mod Progress
pub mod Outcomes
pub mod Arrivals
pub mod Window

-- `mavsdk::CustomAction::Result`: a constructor for each enumerator that the code names.
pub data Result : Type 0 where
  unknown success error timeout in_progress : Result
  other : ℕ → Result

pub data TransitionCondition : Type 0 where
  on_timeout on_landing_complete on_takeoff_complete other : TransitionCondition

pub data CompleteCondition : Type 0 where
  on_result_success on_timeout other : CompleteCondition

pub record ActionToExecute : Type 0 where
  pub id : ℕ

-- `S` is what a stage holds for `execute_custom_action_stage`.
pub record Stage (S : Type 0) : Type 0 where
  pub content : S
  pub state_transition_condition : TransitionCondition

pub record ActionMetadata (S : Type 0) : Type 0 where
  pub id : ℕ
  pub stages : List (Stage S)
  pub global_script : String
  pub action_complete_condition : CompleteCondition

-- The newest element of a vector is the first of a list here. `new_action_time` and `start_time` are the
-- local variables of `run` that its callback keeps.
pub record CustomActionHandler (W S : Type 0) : Type 0 where
  pub action_stopped : Bool
  pub new_action : Bool
  pub landed_state : LandedState
  pub actions : List ActionToExecute
  pub actions_progress : List W
  pub actions_result : List Result
  pub actions_metadata : List (ActionMetadata S)
  pub start_time : ℕ
  pub new_action_time : ℕ

-- One turn of a loop that polls the landed state.
pub record Poll : Type 0 where
  pub cancelled : Bool
  pub landed_state : LandedState

-- What happens around a stage: cancellations before it, and while it executes or the transition's time
-- passes; its result; and the turns of a loop that waits for the vehicle.
pub record StageRun : Type 0 where
  pub cancelled_before : Bool
  pub result : Result
  pub cancelled_during : Bool
  pub polls : List Poll

pub record ScriptRun : Type 0 where
  pub cancelled_before : Bool
  pub result : Result

pub record Surroundings : Type 0 where
  pub stage_run : ℕ → StageRun
  pub script_run : ScriptRun

abbrev pub is_success : Result → Bool
is_success Result.success = true
is_success _ = false

-- `back() = a`
abbrev back_set {ℓ} : {A : Type ℓ} → A → List A → List A
back_set a [] = []
back_set a (_ ∷ rest) = a ∷ rest

module _ {W S : Type 0} where
  -- The cancellation callback, where a cancellation arrives.
  abbrev pub interrupt : Bool → CustomActionHandler W S → CustomActionHandler W S
  interrupt cancelled h = record h { action_stopped = h.action_stopped || cancelled }

  abbrev pub set_result : Result → CustomActionHandler W S → CustomActionHandler W S
  set_result r h = record h { actions_result = back_set r h.actions_result }

  abbrev pub set_progress : W → CustomActionHandler W S → CustomActionHandler W S
  set_progress p h = record h { actions_progress = back_set p h.actions_progress }

  -- `none` while the loop goes on.
  unfoldable pub wait_while :
      (LandedState → Bool) → List Poll → CustomActionHandler W S → Option (CustomActionHandler W S)
  wait_while waiting [] h = if not h.action_stopped && waiting h.landed_state then none else some h
  wait_while waiting (p ∷ polls) h =
      let rest =
        wait_while waiting polls
          (record (interrupt p.cancelled h) { landed_state = p.landed_state }) in
      if not h.action_stopped && waiting h.landed_state then rest else some h

abbrev pub not_landed : LandedState → Bool
not_landed s = landed_eq s LandedState.landing || not (landed_eq s LandedState.on_ground)

abbrev pub not_in_air : LandedState → Bool
not_in_air s = landed_eq s LandedState.taking_off || not (landed_eq s LandedState.in_air)

module _ {W S : Type 0} where
  unfoldable pub await_transition :
      TransitionCondition → List Poll → CustomActionHandler W S → Option (CustomActionHandler W S)
  await_transition TransitionCondition.on_timeout polls h = some h
  await_transition TransitionCondition.on_landing_complete polls h = wait_while not_landed polls h
  await_transition TransitionCondition.on_takeoff_complete polls h = wait_while not_in_air polls h
  await_transition TransitionCondition.other polls h = some h

abbrev script_result : CompleteCondition → Bool → Result → Result
script_result condition true r = Result.unknown
script_result CompleteCondition.on_result_success false r = r
script_result CompleteCondition.on_timeout false r = r
script_result CompleteCondition.other false r = Result.unknown

module _ {W : Type 0} ⦃d : Double W⦄ where
  open d use {lit, of_int, add, mul, div}

  abbrev pub progress_of : ℕ → ℕ → W
  progress_of stage_idx size =
      mul (div (add (of_int (pos stage_idx)) (lit 1 0)) (of_int (pos size))) (lit 100 0)

module _ {W S : Type 0} where
  -- The end of `execute_custom_action`: a cancellation that arrived is forgotten.
  abbrev pub finish : CustomActionHandler W S → CustomActionHandler W S
  finish h = record h { action_stopped = false; actions = [] }

  abbrev pub with_finish :
      Option (CustomActionHandler W S × List (Stage S))
      → Option (CustomActionHandler W S × List (Stage S))
  with_finish none = none
  with_finish (some (h, executed)) = some (finish h, executed)

  abbrev pub with_stage :
      Stage S
      → Option (CustomActionHandler W S × List (Stage S))
      → Option (CustomActionHandler W S × List (Stage S))
  with_stage stage none = none
  with_stage stage (some (h, executed)) = some (h, stage ∷ executed)

module _ {W S : Type 0} ⦃d : Double W⦄ where
  open d use {lit, eq}

  unfoldable pub update_action_progress_from_stage :
      (stage_idx size : ℕ) → CustomActionHandler W S → CustomActionHandler W S
  update_action_progress_from_stage stage_idx size h =
      let progress = progress_of stage_idx size in
      let moved = set_progress progress h in
      if not h.action_stopped
      then (if not (eq progress (lit 100 0))
          then set_result Result.in_progress moved
          else set_result Result.success moved)
      else h

  -- The loop over the stages from the one with index `i`, with the stages that it executed; `none` while
  -- it waits for the vehicle.
  unfoldable pub execute_stages :
      (ℕ → StageRun)
      → (size i : ℕ) → List (Stage S)
      → CustomActionHandler W S
      → Option (CustomActionHandler W S × List (Stage S))
  execute_stages runs size i [] h = some (h, [])
  execute_stages runs size i (stage ∷ stages) h =
      elim (interrupt (runs i).cancelled_before h).action_stopped [
        | true ↦ execute_stages runs size (i + 1) stages (interrupt (runs i).cancelled_before h)
        | false ↦ elim (is_success (runs i).result) [
          | false ↦ some (record (set_result Result.error h) { action_stopped = true }, stage ∷ [])
          | true ↦
              elim (await_transition stage.state_transition_condition (runs i).polls
                (interrupt (runs i).cancelled_during h)) [
                  | none ↦ none
                  | some waited ↦ with_stage stage (
                      execute_stages runs size (i + 1) stages
                        (update_action_progress_from_stage i size waited))
                ]
        ]
      ]

  unfoldable pub execute_global_script :
      CompleteCondition → ScriptRun → CustomActionHandler W S → CustomActionHandler W S
  execute_global_script condition run h =
      let before = interrupt run.cancelled_before h in
      let result = script_result condition before.action_stopped run.result in
      let reported = set_result result before in
      if is_success result then set_progress (lit 100 0) reported else reported

  -- With the stages that were executed.
  unfoldable pub execute_custom_action :
      ActionMetadata S
      → Surroundings
      → CustomActionHandler W S
      → Option (CustomActionHandler W S × List (Stage S))
  execute_custom_action metadata around h = elim metadata.stages [
    | [] ↦ some (
      finish (
          if str_eq metadata.global_script ""
          then h
          else execute_global_script metadata.action_complete_condition around.script_run h),
      [],
    )
    | (stage ∷ stages) ↦
        with_finish (execute_stages around.stage_run (length (stage ∷ stages)) 0 (stage ∷ stages) h)
  ]

  -- The progress report ends when the action has succeeded: its result is set to `Unknown`.
  unfoldable pub end_progress_report : CustomActionHandler W S → CustomActionHandler W S
  end_progress_report h = elim h.actions_progress [
    | [] ↦ h
    | (progress ∷ _) ↦ elim h.actions_result [
      | [] ↦ h
      | (result ∷ _) ↦
          if eq progress (lit 100 0) && is_success result then set_result Result.unknown h else h
    ]
  ]

  abbrev pub with_report :
      Option (CustomActionHandler W S × List (Stage S))
      → Option (CustomActionHandler W S × List (Stage S))
  with_report none = none
  with_report (some (h, executed)) = some (end_progress_report h, executed)

  unfoldable pub process_custom_action :
      ActionMetadata S
      → Surroundings
      → CustomActionHandler W S
      → Option (CustomActionHandler W S × List (Stage S))
  process_custom_action metadata around h = with_report (
      execute_custom_action metadata around (record h {
        actions_metadata = metadata ∷ h.actions_metadata;
        actions_result = Result.in_progress ∷ h.actions_result;
        actions_progress = lit 0 0 ∷ h.actions_progress;
      }))
