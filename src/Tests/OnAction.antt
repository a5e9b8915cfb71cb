-- ===== src/Tests/OnAction.antt =====
-- The processing of custom actions at concrete inputs
-- (src/modules/mission_manager/CustomActionHandler.cpp).
use native.Mathlib.Nat.{mul-div_cancel_left}
use autopilot_manager.Common.{
  ◌≢◌, ◌≤◌, ◌+◌, ◌&&◌, none, ltb, leb, map, replicate, ℕ, zero, suc, ◌*ℤ◌, ◌*◌, ◌/◌, ◌<◌, ◌≡◌, refl,
  ap, Bool, true, false, some, List, [], ◌∷◌, pos, arith,
}
use autopilot_manager.Types.{LandedState}
use autopilot_manager.CustomAction.{
  Result, TransitionCondition, CompleteCondition, ActionToExecute, Stage, ActionMetadata,
  CustomActionHandler, Poll, StageRun, Surroundings, process_custom_action,
}
use autopilot_manager.CustomAction.Stages.{front_report}
use autopilot_manager.CustomAction.Progress.{IsPercent, ended}
use autopilot_manager.CustomAction.Outcomes.{first_failure_stops, stale_cancellation_skips}
use autopilot_manager.CustomAction.Arrivals.{
  Arrivals, on_action, new_action_check, further_turns, arrivals_are_lost, arrived_action_runs,
}
use autopilot_manager.CustomAction.Report.{send_progress_status}
use autopilot_manager.CustomAction.Window.{turns, report_ends, report_never_ends}
use autopilot_manager.Tests.Fixtures.{Milli, milli, metres}

thousandfold : (n : ℕ) → 0 < n → n * 1000 / n ≡ 1000
thousandfold n h = mul-div_cancel_left 1000 h

scaled : (n : ℕ) → pos n *ℤ pos 1000 ≡ pos (n * 1000)
scaled n = ground arith

milli-IsPercent : IsPercent milli
milli-IsPercent = record {
  add_one = λ n h. ground arith;
  div_self = λ n p h.
      rw (scaled n, scaled (n * 1000))
        (ap (λ k. some (pos k)) (thousandfold (n * 1000) (omega arith)));
  one_hundred = refl;
  hundred_eq = refl;
}

abbrev stage : TransitionCondition → Stage ℕ
stage condition = record { content = 7; state_transition_condition = condition }

abbrev take_off : Stage ℕ
take_off = stage TransitionCondition.on_takeoff_complete

abbrev hover : Stage ℕ
hover = stage TransitionCondition.on_timeout

abbrev metadata : ActionMetadata ℕ
metadata = record {
  id = 3;
  stages = [];
  global_script = "";
  action_complete_condition = CompleteCondition.on_result_success;
}

abbrev handler : CustomActionHandler Milli ℕ
handler = record {
  action_stopped = false;
  new_action = false;
  landed_state = LandedState.on_ground;
  actions = [];
  actions_progress = [];
  actions_result = [];
  actions_metadata = [];
  start_time = 5;
  new_action_time = 5;
}

abbrev climb : List Poll
climb =
    record { cancelled = false; landed_state = LandedState.taking_off }
    ∷ record { cancelled = false; landed_state = LandedState.in_air }
    ∷ []

abbrev success_run : StageRun
success_run = record {
  cancelled_before = false;
  result = Result.success;
  cancelled_during = false;
  polls = climb;
}

abbrev second_fails : ℕ → StageRun
second_fails zero = success_run
second_fails (suc _) = record success_run { result = Result.timeout }

abbrev around : (ℕ → StageRun) → Surroundings
around runs = record {
  stage_run = runs;
  script_run = record { cancelled_before = false; result = Result.unknown };
}

abbrev good : Surroundings
good = around (λ _. success_run)

first_failure_stops_example :
    let n = record metadata { stages = take_off ∷ hover ∷ hover ∷ [] } in
    (state : LandedState) × (process_custom_action n (around second_fails) handler
      ≡ some (
        ended milli n handler state
            (front_report 3 0 (take_off ∷ []) (metres 0, Result.in_progress)).0
            Result.error,
        take_off ∷ hover ∷ [],
      ))
first_failure_stops_example =
    first_failure_stops milli metadata (take_off ∷ []) (hover ∷ []) hover (around second_fails)
      handler refl refl refl

stale_cancellation_skips_example :
    let n = record metadata { stages = hover ∷ take_off ∷ [] } in
    process_custom_action n good (record handler { action_stopped = true })
    ≡ some (ended milli n handler LandedState.on_ground (metres 0) Result.in_progress, [])
stale_cancellation_skips_example =
    stale_cancellation_skips milli metadata hover (take_off ∷ []) good handler

abbrev two_stages : ActionToExecute → ActionMetadata ℕ
two_stages action = record metadata { stages = take_off ∷ hover ∷ [] }

arrived_action_runs_example :
    (state : LandedState) × (new_action_check two_stages good
        (record { before_clear = []; after_clear = [] })
        (on_action (9, record { id = 3 }) handler)
      ≡ some (
        record (ended milli
            (two_stages (record { id = 3 }))
            handler
            state
            (metres 100)
            Result.unknown) { new_action = false; new_action_time = 9 },
        take_off ∷ hover ∷ [],
      ))
arrived_action_runs_example =
    arrived_action_runs milli milli-IsPercent two_stages metadata take_off (hover ∷ []) good 9
      (record { id = 3 }) handler refl refl refl (omega arith)

-- One arrives before the actions are cleared, one after that.
abbrev two_more : Arrivals
two_more = record {
  before_clear = (2_000_000_005, record { id = 4 }) ∷ [];
  after_clear = (4_000_000_005, record { id = 5 }) ∷ [];
}

arrivals_are_lost_example :
    (after : CustomActionHandler Milli ℕ) × (new_action_check two_stages good two_more
        (record handler {
          new_action = true;
          actions = record { id = 3 } ∷ [];
          action_stopped = false;
        })
      ≡ some (after, take_off ∷ hover ∷ []))
    × (further_turns two_stages (good ∷ good ∷ []) after ≡ some (after, []))
arrivals_are_lost_example =
    arrivals_are_lost milli milli-IsPercent two_stages metadata take_off (hover ∷ []) good two_more
      (record { id = 3 }) [] handler (good ∷ good ∷ []) refl refl (omega arith)

-- The handler while an action goes on, and while it is stopped from 300 ms to 500 ms.
abbrev reporting : Bool → CustomActionHandler Milli ℕ
reporting stopped = record handler {
  action_stopped = stopped;
  actions_result = Result.error ∷ [];
  actions_progress = metres 50 ∷ [];
}

abbrev seen_at : ℕ → CustomActionHandler Milli ℕ
seen_at t = reporting (leb 300 t && ltb t 500)

seen_stopped : (t : ℕ) → 300 ≤ t → t < 300 + 200 → (seen_at t).action_stopped ≡ true
seen_stopped t a b = ground arith

abbrev seventh : ActionToExecute
seventh = record { id = 7 }

report_ends_example :
    send_progress_status seventh (map seen_at (turns 120 (110 ∷ 150 ∷ 110 ∷ []))) ≢ none
report_ends_example =
    report_ends seventh seen_at 300 (λ t. refl) seen_stopped 120 (110 ∷ 150 ∷ 110 ∷ [])
      (omega arith) (omega arith, (omega arith, (omega arith, tt))) (omega arith)

report_never_ends_example :
    let n = record metadata { stages = take_off ∷ hover ∷ hover ∷ [] } in
    (final : CustomActionHandler Milli ℕ) × (process_custom_action n (around second_fails) handler
      ≡ some (final, take_off ∷ hover ∷ []))
    × ((later : ℕ) → send_progress_status seventh (reporting false ∷ replicate later final) ≡ none)
report_never_ends_example =
    report_never_ends milli metadata (take_off ∷ []) (hover ∷ []) hover (around second_fails)
      handler seventh (reporting false ∷ []) refl refl refl (refl, tt)
