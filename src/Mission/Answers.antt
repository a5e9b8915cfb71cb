-- ===== src/Mission/Answers.antt =====
-- What the autopilot gets back for each trajectory that it sends
-- (src/modules/mission_manager/MissionManager.cpp, `on_mavlink_trajectory_message`).
use autopilot_manager.Common.{Bool, ◌&&◌, Double, if◌then◌else◌}
use autopilot_manager.Mission.State.{LandingPlanner, Trajectory, Mission}
use autopilot_manager.Mission.Trajectory.{
  TrajectoryInputs, landing_trajectory, search_velocity, search_trajectory,
}

module _ {W P : Type 0} ⦃d : Double W⦄ ⦃lp : LandingPlanner W P⦄ where
  -- A search is active and has a waypoint that is a number in all its coordinates.
  abbrev pub overrides : Mission W P → Bool
  overrides m =
      lp.is_active m.landing_planner
      && (d.is_finite m.new_x && d.is_finite m.new_y && d.is_finite m.new_yaw)

  -- The vertical speed of the answer: the crawl speed below the crawl altitude, else the landing speed.
  abbrev pub descent : TrajectoryInputs W → Mission W P → W
  descent i m = d.to_float (
      if d.lt i.height_above_obstacle m.landing_crawl_altitude
      then m.landing_crawl_speed
      else m.landing_speed)

  -- A value of the answer: while landing, while searching, and when the trajectory is sent back.
  abbrev pub choose : TrajectoryInputs W → Mission W P → W → W → W → W
  choose i m landing searching back =
      if overrides m
      then (if lp.should_land m.landing_planner then landing else searching)
      else back

  answer : TrajectoryInputs W → Mission W P → Trajectory W
  answer i m =
      let n = record m { time_last_traj = i.ros_now } in
      if overrides m
      then (if lp.should_land m.landing_planner
          then landing_trajectory i n
          else search_trajectory i (search_velocity i n) n)
      else i.message
