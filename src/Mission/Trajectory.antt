-- ===== src/Mission/Trajectory.antt =====
-- src/modules/mission_manager/MissionManager.cpp: `on_mavlink_trajectory_message`, the answer to each
-- trajectory that the autopilot sends.
use autopilot_manager.Common.{ℕ, Bool, ◌&&◌, none, some, Double, if◌then◌else◌}
use autopilot_manager.Mission.State.{LandingPlanner, Trajectory, Command, Mission, command}

-- What the handler reads besides the state. `from_obstacle_avoidance` is the test of the sender's
-- component, `normalized` is Eigen's.
pub record TrajectoryInputs (W : Type 0) : Type 0 where
  pub from_obstacle_avoidance : Bool
  pub ros_now : ℕ
  pub message : Trajectory W
  pub height_above_obstacle : W
  pub normalized : W × W → W × W

module _ {W : Type 0} ⦃d : Double W⦄ where
  open d use {to_float, add, mul}

  abbrev float_mul : W → W → W
  float_mul a b = to_float (mul a b)

  abbrev float_add : W → W → W
  float_add a b = to_float (add a b)

module _ {W P : Type 0} ⦃d : Double W⦄ ⦃lp : LandingPlanner W P⦄ where
  open d use {nan, lit, to_float, is_finite, lt, sub, neg}
  open lp use {is_active, should_land, get_search_altitude}

  -- "Vehicle should land: command a downward velocity"
  unfoldable pub landing_trajectory : TrajectoryInputs W → Mission W P → Trajectory W
  landing_trajectory i m =
      let slow = lt i.height_above_obstacle m.landing_crawl_altitude in
      let velocity = if slow then to_float m.landing_crawl_speed else to_float m.landing_speed in
      record (i.message) {
        valid_points = 1;
        pos_x = to_float m.new_x;
        pos_y = to_float m.new_y;
        pos_z = nan;
        pos_yaw = m.new_yaw;
        vel_x = nan;
        vel_y = nan;
        vel_z = velocity;
      }

  -- The smoothed velocity towards the waypoint of the search.
  unfoldable pub search_velocity : TrajectoryInputs W → Mission W P → W × W
  search_velocity i m =
      let vel_scale = to_float m.config.landing_site_search_speed in
      let unit = i.normalized (
        to_float (sub m.telemetry.current_pos_x m.new_x),
        to_float (sub m.telemetry.current_pos_y m.new_y),
      ) in
      let new_x = float_mul unit.0 vel_scale in
      let new_y = float_mul unit.1 vel_scale in
      let smoothing_factor = to_float (lit 9 1) in
      let inv_smoothing_factor = to_float (sub (lit 1 0) smoothing_factor) in
      let vel : W × W = elim m.velocity [ none ↦ (new_x, new_y) | some v ↦ v ] in
      (
        float_add (float_mul vel.0 smoothing_factor) (float_mul new_x inv_smoothing_factor),
        float_add (float_mul vel.1 smoothing_factor) (float_mul new_y inv_smoothing_factor),
      )

  -- "Not landing: command a horizontal velocity to follow the search pattern"
  unfoldable pub search_trajectory : TrajectoryInputs W → W × W → Mission W P → Trajectory W
  search_trajectory i vel m = record (i.message) {
    valid_points = 1;
    pos_x = nan;
    pos_y = nan;
    pos_z = to_float (neg (get_search_altitude m.landing_planner));
    pos_yaw = m.new_yaw;
    vel_x = neg vel.0;
    vel_y = neg vel.1;
    vel_z = nan;
  }

  unfoldable pub on_mavlink_trajectory_message : TrajectoryInputs W → Mission W P → Mission W P
  on_mavlink_trajectory_message i m0 =
      let m = record m0 { time_last_traj = i.ros_now } in
      let is_pos_valid = is_finite m.new_x && is_finite m.new_y && is_finite m.new_yaw in
      let is_valid = is_active m.landing_planner && is_pos_valid in
      let vel = search_velocity i m in
      if i.from_obstacle_avoidance
      then m0
      else if is_valid
      then (if should_land m.landing_planner
          then command (Command.send_trajectory (landing_trajectory i m)) m
          else command (Command.send_trajectory (search_trajectory i vel m))
              (record m { velocity = some vel }))
      else command (Command.send_trajectory i.message) m
