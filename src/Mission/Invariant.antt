-- ===== src/Mission/Invariant.antt =====
-- That every step of the mission manager's threads keeps what holds between them
-- (src/modules/mission_manager/MissionManager.cpp).
mod Search
pub use autopilot_manager.Mission.Invariant.Search.{Inv}
use autopilot_manager.Mission.Invariant.Search.{
  command-Inv, process_active_actions-Inv, disable_search-Inv, start_landing_site_search-Inv,
}
use autopilot_manager.Common.{
  ◌<◌, String, ◌≡◌, ◌⊎◌, Bool, true, false, not, ◌||◌, Double, HasNan, arith, if_elim, if_elim_eq,
}
use autopilot_manager.Types.{FlightMode}
use autopilot_manager.Mission.State.{
  LandingPlanner, IsLandingPlanner, Command, Mission, Inputs, command,
}
use autopilot_manager.Mission.Waypoint.{is_stationary, set_new_waypoint}
use autopilot_manager.Mission.Search.{
  landing_site_search_has_ended, decide_search, command_search, update_landing_site_search,
}
use autopilot_manager.Mission.Trigger.{
  move_wrt_current, start_landing_site_search, go_to_waypoint, act_on_no_safe_land,
  act_on_no_safe_land-elim, trigger_if_landing,
}
use autopilot_manager.Mission.SafeLanding.{
  landed_at_waypoint, process_waypoint-elim, update_obstacle_avoidance_status, process_search,
  process_active_actions, disable_search, handle_safe_landing,
}
use autopilot_manager.Mission.Avoidance.{
  act_on_collision, act_on_collision-elim, handle_simple_collision_avoidance,
}
use autopilot_manager.Mission.Trajectory.{on_mavlink_trajectory_message}
use autopilot_manager.Mission.Callbacks.{
  on_position, on_health, on_position_velocity_ned, on_attitude_euler, GpsGlobalOrigin,
  on_landed_state, set_global_position_reference, flight_mode_callback, end_for_mode_change,
}
use autopilot_manager.Mission.Loop.{decide_by_input_type, decision_maker_round, Step, Reach}

module _ {W P : Type 0} ⦃d : Double W⦄ ⦃lp : LandingPlanner W P⦄ where
  module _ (nan : HasNan d) (laws : IsLandingPlanner lp) where
    move_wrt_current-Inv : (i : Inputs W) (m : Mission W P) → Inv m → Inv (move_wrt_current i m)
    unfolding move_wrt_current
    move_wrt_current-Inv i m h = ground arith

    go_to_waypoint-Inv : (m : Mission W P) → Inv m → Inv (go_to_waypoint m)
    unfolding go_to_waypoint
    go_to_waypoint-Inv m h = ground arith

    act_on_no_safe_land-Inv :
        (i : Inputs W) (action : String) (m : Mission W P)
        → Inv m
        → Inv (act_on_no_safe_land i action m)
    act_on_no_safe_land-Inv i action m h =
        act_on_no_safe_land-elim Inv i action m command-Inv (move_wrt_current-Inv i m h)
          (λ _. start_landing_site_search-Inv nan laws i m h) (go_to_waypoint-Inv m h) h

    trigger_if_landing-Inv : (i : Inputs W) (m : Mission W P) → Inv m → Inv (trigger_if_landing i m)
    unfolding trigger_if_landing
    trigger_if_landing-Inv i m h =
        ground (arith, act_on_no_safe_land-Inv i m.config.safe_landing_on_no_safe_land m h)

    handle_safe_landing-Inv :
        (i : Inputs W) (m : Mission W P) → Inv m → Inv (handle_safe_landing i m)
    unfolding handle_safe_landing
    handle_safe_landing-Inv i m h =
        let m' = update_obstacle_avoidance_status i.ros_now m in
        let h' : Inv m' = record {
          waypoint_of_search = h.waypoint_of_search;
          counter_below = h.counter_below;
          previous_altitude = h.previous_altitude;
        } in
        if_elim Inv (not m'.config.safe_landing_enabled || not m'.oa_enabled)
          (disable_search-Inv nan laws m' h')
          (process_active_actions-Inv nan laws i (trigger_if_landing i m')
            (trigger_if_landing-Inv i m' h'))

    act_on_collision-Inv :
        (action : String) (m : Mission W P) → Inv m → Inv (act_on_collision action m)
    act_on_collision-Inv action m h =
        act_on_collision-elim Inv action m (command-Inv _ m h) (command-Inv _ m h)
          (command-Inv _ m h) h

    handle_simple_collision_avoidance-Inv :
        (i : Inputs W) (m : Mission W P) → Inv m → Inv (handle_simple_collision_avoidance i m)
    unfolding handle_simple_collision_avoidance
    handle_simple_collision_avoidance-Inv i m h =
        ground
          (arith, act_on_collision-Inv m.config.simple_collision_avoid_action_on_condition_true m h)

    decide_by_input_type-Inv :
        (i : Inputs W) (m : Mission W P) → Inv m → Inv (decide_by_input_type i m)
    unfolding decide_by_input_type
    decide_by_input_type-Inv i m h =
        ground (arith, handle_safe_landing-Inv i m h, handle_simple_collision_avoidance-Inv i m h)

    decision_maker_round-Inv :
        (i : Inputs W) (m : Mission W P) → Inv m → Inv (decision_maker_round i m)
    unfolding decision_maker_round
    decision_maker_round-Inv i m h =
        let m' = record m { config = i.config_update } in
        let h' : Inv m' = record {
          waypoint_of_search = h.waypoint_of_search;
          counter_below = h.counter_below;
          previous_altitude = h.previous_altitude;
        } in
        ground (arith, decide_by_input_type-Inv i m' h')

    -- Ending an active search unsets its waypoint, and the reset leaves none active.
    end_reset-Inv :
        (m : Mission W P)
        → Inv m
        → let ended = end_for_mode_change m in
          Inv (record ended { landing_planner = lp.reset ended.landing_planner })
    unfolding landing_site_search_has_ended
    end_reset-Inv m h =
        if_elim_eq
          (λ e. Inv {W = W} {P = P} (record e { landing_planner = lp.reset e.landing_planner }))
          (lp.is_active m.landing_planner)
          (λ active. record {
            waypoint_of_search = λ e. nan.is_finite-nan;
            counter_below = h.counter_below;
            previous_altitude = h.previous_altitude;
          })
          (λ off. record {
            waypoint_of_search = λ e. h.waypoint_of_search off;
            counter_below = h.counter_below;
            previous_altitude = h.previous_altitude;
          })

    flight_mode_callback-Inv :
        (f : FlightMode) (m : Mission W P) → Inv m → Inv (flight_mode_callback f m)
    unfolding flight_mode_callback
    flight_mode_callback-Inv f m h =
        let changed : Inv (record m { telemetry = record (m.telemetry) { flight_mode = f } }) =
          record {
            waypoint_of_search = h.waypoint_of_search;
            counter_below = h.counter_below;
            previous_altitude = h.previous_altitude;
          } in
        if_elim Inv _ h (if_elim Inv _ (end_reset-Inv _ changed) changed)

    Step-Inv : {m n : Mission W P} → Step m n → Inv m → Inv n
    unfolding on_mavlink_trajectory_message on_landed_state set_global_position_reference
        on_position on_health on_position_velocity_ned on_attitude_euler
    Step-Inv {m} (Step.round i) h = decision_maker_round-Inv i m h
    Step-Inv {m} (Step.trajectory i) h = ground arith
    Step-Inv {m} (Step.mode f) h = flight_mode_callback-Inv f m h
    Step-Inv {m} (Step.landed l) h = ground arith
    Step-Inv {m} (Step.position p) h = ground arith
    Step-Inv {m} (Step.health g o) h = ground arith
    Step-Inv {m} (Step.velocity p) h = ground arith
    Step-Inv {m} (Step.attitude y) h = ground arith
    Step-Inv {m} (Step.origin (GpsGlobalOrigin.success lat lon alt)) h = ground arith
    Step-Inv {m} (Step.origin GpsGlobalOrigin.timeout) h = h
    Step-Inv {m} (Step.origin GpsGlobalOrigin.failure) h = h

    -- What `Inv` says is kept by whatever rounds and callbacks follow in whatever order: while no search
    -- is active the override of the waypoint is not a number, so a waypoint never survives its search,
    -- the debounce counter stays below 10, and the altitude kept for the previous waypoint is still 0.
    pub Reach-Inv : {m n : Mission W P} → Inv m → Reach m n → Inv n
    Reach-Inv h Reach.here = h
    Reach-Inv h (Reach.next r st) = Step-Inv st (Reach-Inv h r)
