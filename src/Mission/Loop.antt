-- ===== src/Mission/Loop.antt =====
-- src/modules/mission_manager/MissionManager.cpp: `decision_maker_run`, one round of its loop, and the
-- mission manager as a whole: a relation whose steps are the rounds and callbacks, in any order.
use autopilot_manager.Common.{
  ℕ, ◌-◌, ◌/◌, Bool, false, ◌&&◌, ◌||◌, Double, leb, if◌then◌else◌, str_eq,
}
use autopilot_manager.Types.{FlightMode, LandedState}
use autopilot_manager.Mission.State.{LandingPlanner, Mission, Inputs}
use autopilot_manager.Mission.Waypoint.{under_manual_control}
use autopilot_manager.Mission.SafeLanding.{handle_safe_landing}
use autopilot_manager.Mission.Avoidance.{handle_simple_collision_avoidance}
use autopilot_manager.Mission.Trajectory.{TrajectoryInputs, on_mavlink_trajectory_message}
use autopilot_manager.Mission.Callbacks.{
  Position, PositionVelocityNed, GpsGlobalOrigin, on_position, on_health, on_position_velocity_ned,
  on_landed_state, on_attitude_euler, set_global_position_reference, flight_mode_callback,
}

abbrev pub retry_interval_ms : ℕ
retry_interval_ms = 5000

module _ {W P : Type 0} where
  -- "After an action is triggered, we give it 5 seconds to process it before retrying."
  unfoldable pub release_action : ℕ → Mission W P → Mission W P
  release_action now m =
      if m.action_in_progress && leb retry_interval_ms ((now - m.last_time) / 1_000_000)
      then record m { action_in_progress = false }
      else m

module _ {W P : Type 0} ⦃d : Double W⦄ ⦃lp : LandingPlanner W P⦄ where
  -- The choice of the handler by `decision_maker_input_type`.
  unfoldable pub decide_by_input_type : Inputs W → Mission W P → Mission W P
  decide_by_input_type i m =
      let handled = handle_safe_landing i m in
      if str_eq m.config.decision_maker_input_type "SAFE_LANDING"
      then record handled {
        is_healthy = handled.oa_enabled || under_manual_control handled.telemetry.flight_mode;
      }
      else if str_eq m.config.decision_maker_input_type "SIMPLE_COLLISION_AVOIDANCE"
      then handle_simple_collision_avoidance i m
      else m

  unfoldable pub decision_maker_round : Inputs W → Mission W P → Mission W P
  unfolding decide_by_input_type release_action
  decision_maker_round i m0 =
      let m = record m0 { config = i.config_update } in
      if m.config.autopilot_manager_enabled
      then release_action i.system_now (decide_by_input_type i m)
      else m

  -- One step of the mission manager: a round, or a callback of another thread.
  pub data Step (m : Mission W P) : Mission W P → Type 0 where
    round : (i : Inputs W) → Step m (decision_maker_round i m)
    trajectory : (i : TrajectoryInputs W) → Step m (on_mavlink_trajectory_message i m)
    mode : (f : FlightMode) → Step m (flight_mode_callback f m)
    landed : (l : LandedState) → Step m (on_landed_state l m)
    position : (p : Position W) → Step m (on_position p m)
    health : (global home : Bool) → Step m (on_health global home m)
    velocity : (p : PositionVelocityNed W) → Step m (on_position_velocity_ned p m)
    attitude : (yaw_deg : W) → Step m (on_attitude_euler yaw_deg m)
    origin : (o : GpsGlobalOrigin W) → Step m (set_global_position_reference o m)

  pub data Reach (m : Mission W P) : Mission W P → Type 0 where
    here : Reach m m
    next : {n o : Mission W P} → Reach m n → Step n o → Reach m o
