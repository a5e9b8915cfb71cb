-- ===== src/Manager/Memory.antt =====
-- src/AutopilotManager.cpp: what a module reads of the configuration in memory, and the requests that
-- set and report it.
use autopilot_manager.Common.{ℤ, ℕ, String, Bool, not, ltb, str_eq, if◌then◌else◌}
use autopilot_manager.Mission.State.{Configuration as MissionConfiguration}
use autopilot_manager.Landing.Parameters.{Configuration as LandingConfiguration}
use autopilot_manager.Manager.Config.{AutopilotManagerConfig}

pub data ResponseCode : Type 0 where
  succeed_with_safe_landing_off succeed_with_safe_landing_on : ResponseCode
  succeed_with_coll_avoid_off succeed_with_coll_avoid_on : ResponseCode
  failed unknown : ResponseCode

-- The members that hold the configuration in memory.
pub record Members (W : Type 0) : Type 0 where
  pub autopilot_manager_enabled : ℕ
  pub decision_maker_input_type : String
  pub script_to_call : String
  pub api_call : String
  pub local_position_offset_x : W
  pub local_position_offset_y : W
  pub local_position_offset_z : W
  pub local_position_waypoint_x : W
  pub local_position_waypoint_y : W
  pub local_position_waypoint_z : W
  pub global_position_offset_lat : W
  pub global_position_offset_lon : W
  pub global_position_offset_alt_amsl : W
  pub global_position_waypoint_lat : W
  pub global_position_waypoint_lon : W
  pub global_position_waypoint_alt_amsl : W
  pub camera_offset_x : W
  pub camera_offset_y : W
  pub camera_yaw : W
  pub safe_landing_enabled : ℕ
  pub safe_landing_area_square_size : W
  pub safe_landing_distance_to_ground : W
  pub safe_landing_on_no_safe_land : String
  pub safe_landing_try_landing_after_action : ℕ
  pub landing_site_search_speed : W
  pub landing_site_search_max_distance : W
  pub landing_site_search_min_height : W
  pub landing_site_search_min_distance_after_abort : W
  pub landing_site_search_arrival_radius : W
  pub landing_site_search_assess_time : W
  pub landing_site_search_strategy : String
  pub landing_site_search_spiral_spacing : W
  pub landing_site_search_spiral_points : ℤ
  pub simple_collision_avoid_enabled : ℕ
  pub simple_collision_avoid_distance_threshold : W
  pub simple_collision_avoid_action_on_condition_true : String

-- A `uint8_t` as a truth value.
abbrev pub flag : ℕ → Bool
flag n = ltb 0 n

abbrev pub response_code : String → ℕ → ℕ → ResponseCode
response_code input_type safe_landing coll_avoid =
    if str_eq input_type "SAFE_LANDING"
    then (if not (flag safe_landing)
        then ResponseCode.succeed_with_safe_landing_off
        else ResponseCode.succeed_with_safe_landing_on)
    else if str_eq input_type "SIMPLE_COLLISION_AVOIDANCE"
    then (if not (flag coll_avoid)
        then ResponseCode.succeed_with_coll_avoid_off
        else ResponseCode.succeed_with_coll_avoid_on)
    else ResponseCode.unknown

module _ {W : Type 0} where
  unfoldable pub set_configuration : AutopilotManagerConfig W → Members W → Members W × ResponseCode
  set_configuration config m = (
    record m {
      autopilot_manager_enabled = config.autopilot_manager_enabled;
      decision_maker_input_type = config.decision_maker_input_type;
      script_to_call = config.script_to_call;
      api_call = config.api_call;
      local_position_offset_x = config.local_position_offset_x;
      local_position_offset_y = config.local_position_offset_y;
      local_position_offset_z = config.local_position_offset_z;
      local_position_waypoint_x = config.local_position_waypoint_x;
      local_position_waypoint_y = config.local_position_waypoint_y;
      local_position_waypoint_z = config.local_position_waypoint_z;
      global_position_offset_lat = config.global_position_offset_lat;
      global_position_offset_lon = config.global_position_offset_lon;
      global_position_offset_alt_amsl = config.global_position_offset_alt_amsl;
      global_position_waypoint_lat = config.global_position_waypoint_lat;
      global_position_waypoint_lon = config.global_position_waypoint_lon;
      global_position_waypoint_alt_amsl = config.global_position_waypoint_alt_amsl;
      camera_offset_x = config.camera_offset_x;
      camera_offset_y = config.camera_offset_y;
      camera_yaw = config.camera_yaw;
      safe_landing_enabled = config.safe_landing_enabled;
      safe_landing_area_square_size = config.safe_landing_area_square_size;
      safe_landing_distance_to_ground = config.safe_landing_distance_to_ground;
      safe_landing_on_no_safe_land = config.safe_landing_on_no_safe_land;
      safe_landing_try_landing_after_action = config.safe_landing_try_landing_after_action;
      landing_site_search_speed = config.landing_site_search_speed;
      landing_site_search_max_distance = config.landing_site_search_max_distance;
      landing_site_search_min_height = config.landing_site_search_min_height;
      landing_site_search_min_distance_after_abort =
          config.landing_site_search_min_distance_after_abort;
      landing_site_search_arrival_radius = config.landing_site_search_arrival_radius;
      landing_site_search_assess_time = config.landing_site_search_assess_time;
      landing_site_search_strategy = config.landing_site_search_strategy;
      landing_site_search_spiral_spacing = config.landing_site_search_spiral_spacing;
      landing_site_search_spiral_points = config.landing_site_search_spiral_points;
      simple_collision_avoid_enabled = config.simple_collision_avoid_enabled;
      simple_collision_avoid_distance_threshold = config.simple_collision_avoid_distance_threshold;
      simple_collision_avoid_action_on_condition_true =
          config.simple_collision_avoid_action_on_condition_true;
    },
    response_code config.decision_maker_input_type config.safe_landing_enabled
        config.simple_collision_avoid_enabled,
  )

  -- The function's own copy of its argument at its return, with the code; its callers keep the code.
  unfoldable pub get_configuration :
      AutopilotManagerConfig W → Members W → AutopilotManagerConfig W × ResponseCode
  get_configuration config m = (
    record config {
      autopilot_manager_enabled = m.autopilot_manager_enabled;
      decision_maker_input_type = m.decision_maker_input_type;
      script_to_call = m.script_to_call;
      api_call = m.api_call;
      local_position_offset_x = m.local_position_offset_x;
      local_position_offset_y = m.local_position_offset_y;
      local_position_offset_z = m.local_position_offset_z;
      local_position_waypoint_x = m.local_position_waypoint_x;
      local_position_waypoint_y = m.local_position_waypoint_y;
      local_position_waypoint_z = m.local_position_waypoint_z;
      global_position_offset_lat = m.global_position_offset_lat;
      global_position_offset_lon = m.global_position_offset_lon;
      global_position_offset_alt_amsl = m.global_position_offset_alt_amsl;
      global_position_waypoint_lat = m.global_position_waypoint_lat;
      global_position_waypoint_lon = m.global_position_waypoint_lon;
      global_position_waypoint_alt_amsl = m.global_position_waypoint_alt_amsl;
      camera_offset_x = m.camera_offset_x;
      camera_offset_y = m.camera_offset_y;
      camera_yaw = m.camera_yaw;
      safe_landing_enabled = m.safe_landing_enabled;
      safe_landing_area_square_size = m.safe_landing_area_square_size;
      safe_landing_distance_to_ground = m.safe_landing_distance_to_ground;
      safe_landing_on_no_safe_land = m.safe_landing_on_no_safe_land;
      safe_landing_try_landing_after_action = m.safe_landing_try_landing_after_action;
      landing_site_search_speed = m.landing_site_search_speed;
      landing_site_search_max_distance = m.landing_site_search_max_distance;
      landing_site_search_min_height = m.landing_site_search_min_height;
      landing_site_search_min_distance_after_abort = m.landing_site_search_min_distance_after_abort;
      landing_site_search_arrival_radius = m.landing_site_search_arrival_radius;
      landing_site_search_assess_time = m.landing_site_search_assess_time;
      landing_site_search_strategy = m.landing_site_search_strategy;
      landing_site_search_spiral_spacing = m.landing_site_search_spiral_spacing;
      landing_site_search_spiral_points = m.landing_site_search_spiral_points;
      simple_collision_avoid_enabled = m.simple_collision_avoid_enabled;
      simple_collision_avoid_distance_threshold = m.simple_collision_avoid_distance_threshold;
      simple_collision_avoid_action_on_condition_true =
          m.simple_collision_avoid_action_on_condition_true;
    },
    response_code m.decision_maker_input_type m.safe_landing_enabled
        m.simple_collision_avoid_enabled,
  )

  -- The callback of the mission manager.
  unfoldable pub mission_configuration : Members W → MissionConfiguration W
  mission_configuration m = record {
    autopilot_manager_enabled = flag m.autopilot_manager_enabled;
    decision_maker_input_type = m.decision_maker_input_type;
    script_to_call = m.script_to_call;
    api_call = m.api_call;
    local_position_offset_x = m.local_position_offset_x;
    local_position_offset_y = m.local_position_offset_y;
    local_position_offset_z = m.local_position_offset_z;
    local_position_waypoint_x = m.local_position_waypoint_x;
    local_position_waypoint_y = m.local_position_waypoint_y;
    local_position_waypoint_z = m.local_position_waypoint_z;
    global_position_offset_lat = m.global_position_offset_lat;
    global_position_offset_lon = m.global_position_offset_lon;
    global_position_offset_alt_amsl = m.global_position_offset_alt_amsl;
    global_position_waypoint_lat = m.global_position_waypoint_lat;
    global_position_waypoint_lon = m.global_position_waypoint_lon;
    global_position_waypoint_alt_amsl = m.global_position_waypoint_alt_amsl;
    safe_landing_enabled = flag m.safe_landing_enabled;
    safe_landing_distance_to_ground = m.safe_landing_distance_to_ground;
    safe_landing_on_no_safe_land = m.safe_landing_on_no_safe_land;
    safe_landing_try_landing_after_action = flag m.safe_landing_try_landing_after_action;
    landing_site_search_speed = m.landing_site_search_speed;
    landing_site_search_max_distance = m.landing_site_search_max_distance;
    landing_site_search_min_height = m.landing_site_search_min_height;
    landing_site_search_min_distance_after_abort = m.landing_site_search_min_distance_after_abort;
    landing_site_search_arrival_radius = m.landing_site_search_arrival_radius;
    landing_site_search_assess_time = m.landing_site_search_assess_time;
    landing_site_search_strategy = m.landing_site_search_strategy;
    landing_site_search_spiral_spacing = m.landing_site_search_spiral_spacing;
    landing_site_search_spiral_points = m.landing_site_search_spiral_points;
    simple_collision_avoid_enabled = flag m.simple_collision_avoid_enabled;
    simple_collision_avoid_distance_threshold = m.simple_collision_avoid_distance_threshold;
    simple_collision_avoid_action_on_condition_true =
        m.simple_collision_avoid_action_on_condition_true;
  }

  -- The callback of the landing manager.
  unfoldable pub landing_configuration : Members W → LandingConfiguration W
  landing_configuration m = record {
    autopilot_manager_enabled = flag m.autopilot_manager_enabled;
    safe_landing_enabled = flag m.safe_landing_enabled;
    safe_landing_area_square_size = m.safe_landing_area_square_size;
    safe_landing_distance_to_ground = m.safe_landing_distance_to_ground;
  }

pub record CollisionConfiguration : Type 0 where
  pub autopilot_manager_enabled : Bool
  pub simple_collision_avoid_enabled : Bool

module _ {W : Type 0} where
  -- The callback of the collision avoidance manager.
  unfoldable pub collision_configuration : Members W → CollisionConfiguration
  collision_configuration m = record {
    autopilot_manager_enabled = flag m.autopilot_manager_enabled;
    simple_collision_avoid_enabled = flag m.simple_collision_avoid_enabled;
  }
