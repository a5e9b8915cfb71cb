-- ===== src/Tests/OnMission.antt =====
-- The mission manager at concrete inputs (src/modules/mission_manager/MissionManager.cpp).
use autopilot_manager.Common.{
  ap, ◌≡◌, refl, ◌⊎◌, inl, inr, true, false, none, some, [], ◌∷◌, arith, pos,
}
use autopilot_manager.Types.{FlightMode, LandedState, MapperState}
use autopilot_manager.Mission.State.{Inputs, Configuration, Trajectory, Command, Mission}
use autopilot_manager.Mission.Waypoint.{landing_triggered, under_manual_control}
use autopilot_manager.Mission.Search.{update_landing_site_search}
use autopilot_manager.Mission.Trigger.{
  act_on_no_safe_land, start_landing_site_search, go_to_waypoint, trigger_if_landing,
}
use autopilot_manager.Mission.SafeLanding.{
  update_obstacle_avoidance_status, process_search, process_active_actions, handle_safe_landing,
}
use autopilot_manager.Mission.Trajectory.{TrajectoryInputs}
use autopilot_manager.Mission.Callbacks.{flight_mode_callback}
use autopilot_manager.Mission.Loop.{decision_maker_round, Step, Reach}
use autopilot_manager.Mission.Invariant.{Inv}
use autopilot_manager.Mission.Orders.{
  orders, is_known_action, IsAnswered, act_on_no_safe_land_answers,
}
use autopilot_manager.Mission.Verdict.{Verdict, carry_out, trigger_if_landing_by_table}
use autopilot_manager.Mission.Debounce.{debounce_run, debounce_counts_ten}
use autopilot_manager.Mission.Ending.{
  manual_mode_ends_search, disabled_ends_search, process_search_ends,
}
use autopilot_manager.Mission.Retry.{Reach-IsQuiet}
use autopilot_manager.Mission.Collision.{IsObstacle, acts_again}
use autopilot_manager.Mission.Start.{MayStart, search_start_guarded}
use autopilot_manager.Mission.Arrival.{lands, lands_once, search_only_holds, go_to_waypoint_again}
use autopilot_manager.Tests.Fixtures.{
  Milli, milli, milli_nan, metres, Phase, phases, phases_live, configuration, in_flight, inputs,
}

abbrev search_config : Configuration Milli
search_config = configuration "SAFE_LANDING" "LANDING_SITE_SEARCH"

abbrev landing_mission : Mission Milli Phase
landing_mission = in_flight FlightMode.land LandedState.in_air Phase.idle search_config

-- A triggered landing over ground that cannot be landed on starts the search and its waypoint.
search_starts :
    let m =
      decision_maker_round (inputs 100 MapperState.can_not_land search_config) landing_mission in
    (m.landing_planner ≡ Phase.searching) × (m.new_x ≡ metres 5) × (m.action_in_progress ≡ true)
unfolding decision_maker_round handle_safe_landing trigger_if_landing act_on_no_safe_land
    start_landing_site_search update_landing_site_search
search_starts = (refl, refl, refl)

start-Inv : Inv landing_mission
start-Inv = record {
  waypoint_of_search = λ e. refl;
  counter_below = omega arith;
  previous_altitude = refl;
}

abbrev started : Mission Milli Phase
started = decision_maker_round (inputs 100 MapperState.can_not_land search_config) landing_mission

search_start_guarded_example :
    (i : Inputs Milli) × (started ≡ decision_maker_round i landing_mission)
    × MayStart i landing_mission
search_start_guarded_example =
    search_start_guarded phases_live
      (Step.round (inputs 100 MapperState.can_not_land search_config)) refl
      (ap phases.is_active search_starts.0)

go_to_waypoint_again_example :
    orders (go_to_waypoint landing_mission).log
    ≡ Command.goto_location (metres 47) (metres 8) (metres 425) none ∷ []
go_to_waypoint_again_example =
    go_to_waypoint_again milli_nan phases_live {m = landing_mission} {n = landing_mission} start-Inv
      Reach.here refl

act_on_no_safe_land_answers_example :
    ((is_known_action "RTL" ≡ true)
      × IsAnswered landing_mission (
          act_on_no_safe_land
            (inputs 100 MapperState.can_not_land search_config)
            "RTL"
            landing_mission))
    ⊎ ((is_known_action "RTL" ≡ false)
        × (act_on_no_safe_land
              (inputs 100 MapperState.can_not_land search_config)
              "RTL"
              landing_mission
            ≡ landing_mission))
act_on_no_safe_land_answers_example =
    act_on_no_safe_land_answers (inputs 100 MapperState.can_not_land search_config) "RTL"
      landing_mission

trigger_if_landing_by_table_example :
    trigger_if_landing (inputs 100 MapperState.unhealthy search_config) landing_mission
    ≡ carry_out
        (inputs 100 MapperState.unhealthy search_config)
        Verdict.stop_and_hold
        landing_mission
unfolding landing_triggered
trigger_if_landing_by_table_example =
    trigger_if_landing_by_table (inputs 100 MapperState.unhealthy search_config) landing_mission

debounce_counts_ten_example :
    (debounce_run (true ∷ false ∷ true ∷ true ∷ []) (3, false) ≡ (2, false))
    × (debounce_run
          (true ∷ false ∷ true ∷ true ∷ true ∷ true ∷ true ∷ true ∷ true ∷ true ∷ true ∷ true ∷ [])
          (3, false)
        ≡ (0, true))
debounce_counts_ten_example = debounce_counts_ten (true ∷ []) (3, false) 2 (omega arith)

abbrev searching : FlightMode → LandedState → Mission Milli Phase
searching mode landed = in_flight mode landed Phase.searching search_config

manual_mode_ends_search_example :
    let m = searching FlightMode.land LandedState.in_air in
    let n = flight_mode_callback FlightMode.posctl m in
    (phases.is_active n.landing_planner ≡ false)
    × (orders n.log ≡ [])
    × ((true ≡ false) ⊎ (milli.is_finite n.new_x ≡ false))
unfolding under_manual_control
manual_mode_ends_search_example =
    manual_mode_ends_search milli_nan phases_live FlightMode.posctl
      (searching FlightMode.land LandedState.in_air) refl refl

-- The last trajectory is 0.6 s old.
disabled_ends_search_example :
    let m = searching FlightMode.land LandedState.in_air in
    let n = handle_safe_landing (inputs 600_000_000 MapperState.can_land search_config) m in
    (phases.is_active n.landing_planner ≡ false)
    × (orders n.log ≡ Command.hold ∷ [])
    × (milli.is_finite n.new_x ≡ false)
unfolding update_obstacle_avoidance_status
disabled_ends_search_example =
    disabled_ends_search milli_nan phases_live
      (inputs 600_000_000 MapperState.can_land search_config)
      (searching FlightMode.land LandedState.in_air) (inr refl)

process_search_ends_example :
    let m = searching FlightMode.land LandedState.on_ground in
    let n = process_search (inputs 100 MapperState.can_land search_config) m in
    (phases.is_ended n.landing_planner ≡ true)
    × (phases.is_active n.landing_planner ≡ false)
    × (milli.is_finite n.new_x ≡ false)
    × (orders n.log ≡ [])
process_search_ends_example =
    process_search_ends milli_nan phases_live (inputs 100 MapperState.can_land search_config)
      (searching FlightMode.land LandedState.on_ground) (inl refl)

search_only_holds_example :
    let m = searching FlightMode.land LandedState.in_air in
    let n = update_landing_site_search (inputs 100 MapperState.can_land search_config) true m in
    (orders n.log ≡ [])
    ⊎ ((orders n.log ≡ Command.hold ∷ [])
        × (phases.is_ended n.landing_planner ≡ true)
        × (milli.is_finite n.new_x ≡ false))
search_only_holds_example =
    search_only_holds milli_nan phases_live (inputs 100 MapperState.can_land search_config) true
      (searching FlightMode.land LandedState.in_air)

abbrev arriving : Mission Milli Phase
arriving = record landing_mission {
  new_latitude = metres 47;
  new_longitude = metres 8;
  new_altitude_amsl = metres 425;
}

lands_once_example :
    let n = process_active_actions (inputs 100 MapperState.can_land search_config) arriving in
    ((lands arriving ≡ false) × (n.log ≡ []))
    ⊎ ((lands arriving ≡ true)
        × (n.log ≡ Command.land ∷ [])
        × (milli.is_finite n.new_latitude ≡ false)
        × (milli.is_finite n.new_longitude ≡ false)
        × (milli.is_finite n.new_altitude_amsl ≡ false)
        × ((process_active_actions (inputs 200 MapperState.can_land search_config) n).log ≡ n.log))
lands_once_example =
    lands_once milli_nan (inputs 100 MapperState.can_land search_config)
      (inputs 200 MapperState.can_land search_config) arriving refl

abbrev avoid_config : Configuration Milli
avoid_config = configuration "SIMPLE_COLLISION_AVOIDANCE" "LAND"

abbrev busy : Mission Milli Phase
busy = record (in_flight FlightMode.mission LandedState.in_air Phase.idle avoid_config) {
  action_in_progress = true;
}

abbrev first_round : Inputs Milli
first_round = inputs 50_000_000 MapperState.unknown avoid_config

abbrev later_round : Inputs Milli
later_round = inputs 4_999_000_000 MapperState.unknown avoid_config

-- A change of the flight mode between two rounds.
abbrev five_seconds : Reach busy (
    decision_maker_round later_round
      (flight_mode_callback FlightMode.land (decision_maker_round first_round busy)))
five_seconds =
    Reach.next
      (Reach.next (Reach.next Reach.here (Step.round first_round)) (Step.mode FlightMode.land))
      (Step.round later_round)

Reach-IsQuiet_example :
    let n =
      decision_maker_round later_round
        (flight_mode_callback FlightMode.land (decision_maker_round first_round busy)) in
    (orders n.log ≡ []) × (n.action_in_progress ≡ true) × (n.last_time ≡ 0)
Reach-IsQuiet_example =
    Reach-IsQuiet five_seconds refl ((refl, omega arith), ((refl, omega arith), tt))

near-IsObstacle : IsObstacle (inputs 5_050_000_000 MapperState.unknown avoid_config) busy
near-IsObstacle = record {
  manager_enabled = refl;
  input_type = refl;
  enabled = refl;
  finite = refl;
  near = refl;
  in_air = refl;
}

acts_again_example :
    let n =
      decision_maker_round
        (inputs 5_050_000_000 MapperState.unknown avoid_config)
        (decision_maker_round (inputs 5_000_000_000 MapperState.unknown avoid_config) busy) in
    (n.log ≡ Command.land ∷ []) × (n.action_in_progress ≡ true) × (n.last_time ≡ 5_050_000_000)
acts_again_example =
    acts_again (inputs 5_000_000_000 MapperState.unknown avoid_config)
      (inputs 5_050_000_000 MapperState.unknown avoid_config) busy refl refl refl (omega arith)
      near-IsObstacle

abbrev message : Trajectory Milli
message = record {
  valid_points = 5;
  pos_x = metres 1;
  pos_y = metres 2;
  pos_z = metres 3;
  pos_yaw = metres 0;
  vel_x = metres 1;
  vel_y = metres 1;
  vel_z = metres 1;
  rest = 7 ∷ [];
}

abbrev trajectory_inputs : TrajectoryInputs Milli
trajectory_inputs = record {
  from_obstacle_avoidance = false;
  ros_now = 100;
  message = message;
  height_above_obstacle = some (pos 500);
  normalized = λ v. v;
}

abbrev descending : Mission Milli Phase
descending = record (in_flight FlightMode.land LandedState.in_air Phase.found search_config) {
  new_x = metres 5;
  new_y = metres 5;
  new_yaw = metres 0;
}
