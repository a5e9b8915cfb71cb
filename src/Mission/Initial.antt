-- ===== src/Mission/Initial.antt =====
-- src/modules/mission_manager/MissionManager.cpp: the constructor.
use autopilot_manager.Common.{ℕ, refl, false, true, none, [], pos, Double, HasNan, arith}
use autopilot_manager.Types.{FlightMode, LandedState}
use autopilot_manager.Mission.State.{Configuration, LandingPlanner, Mission}
use autopilot_manager.Mission.Invariant.{Inv}

module _ {W : Type 0} ⦃d : Double W⦄ where
  -- `MissionManagerConfiguration{}`
  abbrev pub default_configuration : Configuration W
  default_configuration = record {
    autopilot_manager_enabled = false;
    decision_maker_input_type = "";
    script_to_call = "";
    api_call = "";
    local_position_offset_x = d.lit 0 0;
    local_position_offset_y = d.lit 0 0;
    local_position_offset_z = d.lit 0 0;
    local_position_waypoint_x = d.lit 0 0;
    local_position_waypoint_y = d.lit 0 0;
    local_position_waypoint_z = d.lit 0 0;
    global_position_offset_lat = d.lit 0 0;
    global_position_offset_lon = d.lit 0 0;
    global_position_offset_alt_amsl = d.lit 0 0;
    global_position_waypoint_lat = d.lit 0 0;
    global_position_waypoint_lon = d.lit 0 0;
    global_position_waypoint_alt_amsl = d.lit 0 0;
    safe_landing_enabled = false;
    safe_landing_distance_to_ground = d.lit 0 0;
    safe_landing_on_no_safe_land = "";
    safe_landing_try_landing_after_action = false;
    landing_site_search_speed = d.lit 0 0;
    landing_site_search_max_distance = d.lit 0 0;
    landing_site_search_min_height = d.lit 0 0;
    landing_site_search_min_distance_after_abort = d.lit 0 0;
    landing_site_search_arrival_radius = d.lit 0 0;
    landing_site_search_assess_time = d.lit 0 0;
    landing_site_search_strategy = "";
    landing_site_search_spiral_spacing = d.lit 0 0;
    landing_site_search_spiral_points = pos 0;
    simple_collision_avoid_enabled = false;
    simple_collision_avoid_distance_threshold = d.lit 0 0;
    simple_collision_avoid_action_on_condition_true = "";
  }

module _ {W P : Type 0} ⦃d : Double W⦄ where
  -- At the time `now` of the ROS clock, with the landing planner's initial state. The members that the
  -- constructor does not set are those of `memory`.
  unfoldable pub new_mission : ℕ → P → Mission W P → Mission W P
  new_mission now planner memory =
      let telemetry = memory.telemetry in
      record memory {
        config = default_configuration;
        telemetry = record telemetry {
          flight_mode = FlightMode.unknown;
          landed_state = LandedState.unknown;
          previous_landed_state = LandedState.unknown;
          current_latitude = d.lit 0 0;
          current_longitude = d.lit 0 0;
          current_altitude_amsl = d.lit 0 0;
        };
        oa_enabled = false;
        action_in_progress = false;
        global_origin_reference_set = false;
        landing_speed = d.lit 7 1;
        landing_crawl_speed = d.lit 3 1;
        landing_crawl_altitude = d.lit 1 0;
        is_stationary_debounce_counter = 0;
        new_latitude = d.nan;
        new_longitude = d.nan;
        new_altitude_amsl = d.nan;
        new_x = d.nan;
        new_y = d.nan;
        new_yaw = d.nan;
        previously_set_waypoint_altitude_amsl = d.lit 0 0;
        landing_planner = planner;
        last_time = 0;
        time_last_traj = now;
        is_healthy = true;
        velocity = none;
        log = [];
      }

module _ {W P : Type 0} ⦃d : Double W⦄ ⦃lp : LandingPlanner W P⦄ where
  pub new_mission-Inv :
      (nan : HasNan d) (now : ℕ) (planner : P) (memory : Mission W P)
      → Inv (new_mission now planner memory)
  unfolding new_mission
  new_mission-Inv nan now planner memory = record {
    waypoint_of_search = λ _. nan.is_finite-nan;
    counter_below = omega arith;
    previous_altitude = refl;
  }
