-- ===== src/Manager/Config.antt =====
-- include/AutopilotManagerConfig.hpp and src/AutopilotManagerConfig.cpp: the configuration, and
-- the lines of its file. A `uint8_t` is its number.
use autopilot_manager.Common.{ℕ, ℤ, pos, String, List, [], ◌∷◌, Double}

-- What a line of the file holds after the `=`, before it is printed.
pub data Value (W : Type 0) : Type 0 where
  text : String → Value W
  real : W → Value W
  integer : ℤ → Value W

pub record AutopilotManagerConfig (W : Type 0) : Type 0 where
  pub autopilot_manager_enabled : ℕ
  pub decision_maker_input_type : String
  pub script_to_call : String
  pub api_call : String
  pub local_position_offset_x : W
  pub local_position_offset_y : W
  pub local_position_offset_z : W
  pub local_position_waypoint_x : W
  pub local_position_waypoint_y : W
  pub local_position_waypoint_z : W
  pub global_position_offset_lat : W
  pub global_position_offset_lon : W
  pub global_position_offset_alt_amsl : W
  pub global_position_waypoint_lat : W
  pub global_position_waypoint_lon : W
  pub global_position_waypoint_alt_amsl : W
  pub camera_offset_x : W
  pub camera_offset_y : W
  pub camera_yaw : W
  pub safe_landing_enabled : ℕ
  pub safe_landing_area_square_size : W
  pub safe_landing_distance_to_ground : W
  pub safe_landing_on_no_safe_land : String
  pub safe_landing_try_landing_after_action : ℕ
  pub landing_site_search_speed : W
  pub landing_site_search_max_distance : W
  pub landing_site_search_min_height : W
  pub landing_site_search_min_distance_after_abort : W
  pub landing_site_search_arrival_radius : W
  pub landing_site_search_assess_time : W
  pub landing_site_search_strategy : String
  pub landing_site_search_spiral_spacing : W
  pub landing_site_search_spiral_points : ℤ
  pub simple_collision_avoid_enabled : ℕ
  pub simple_collision_avoid_distance_threshold : W
  pub simple_collision_avoid_action_on_condition_true : String

module _ {W : Type 0} ⦃d : Double W⦄ where
  open d use {lit}

  -- The initial values of the members.
  unfoldable pub default_config : AutopilotManagerConfig W
  default_config = record {
    autopilot_manager_enabled = 0;
    decision_maker_input_type = "";
    script_to_call = "";
    api_call = "";
    local_position_offset_x = lit 0 0;
    local_position_offset_y = lit 0 0;
    local_position_offset_z = lit 0 0;
    local_position_waypoint_x = lit 0 0;
    local_position_waypoint_y = lit 0 0;
    local_position_waypoint_z = lit 0 0;
    global_position_offset_lat = lit 0 0;
    global_position_offset_lon = lit 0 0;
    global_position_offset_alt_amsl = lit 0 0;
    global_position_waypoint_lat = lit 0 0;
    global_position_waypoint_lon = lit 0 0;
    global_position_waypoint_alt_amsl = lit 0 0;
    camera_offset_x = lit 0 0;
    camera_offset_y = lit 0 0;
    camera_yaw = lit 0 0;
    safe_landing_enabled = 0;
    safe_landing_area_square_size = lit 0 0;
    safe_landing_distance_to_ground = lit 0 0;
    safe_landing_on_no_safe_land = "";
    safe_landing_try_landing_after_action = 0;
    landing_site_search_speed = lit 0 0;
    landing_site_search_max_distance = lit 0 0;
    landing_site_search_min_height = lit 0 0;
    landing_site_search_min_distance_after_abort = lit 0 0;
    landing_site_search_arrival_radius = lit 0 0;
    landing_site_search_assess_time = lit 0 0;
    landing_site_search_strategy = "";
    landing_site_search_spiral_spacing = lit 0 0;
    landing_site_search_spiral_points = pos 0;
    simple_collision_avoid_enabled = 0;
    simple_collision_avoid_distance_threshold = lit 0 0;
    simple_collision_avoid_action_on_condition_true = "";
  }

module _ {W : Type 0} where
  -- One line of the file for each member, as its key and its value.
  unfoldable pub written_lines : AutopilotManagerConfig W → List (String × Value W)
  written_lines c =
      ("autopilot_manager_enabled", Value.integer (pos c.autopilot_manager_enabled))
      ∷ ("decision_maker_input_type", Value.text c.decision_maker_input_type)
      ∷ ("script_to_call", Value.text c.script_to_call)
      ∷ ("api_call", Value.text c.api_call)
      ∷ ("local_position_offset_x", Value.real c.local_position_offset_x)
      ∷ ("local_position_offset_y", Value.real c.local_position_offset_y)
      ∷ ("local_position_offset_z", Value.real c.local_position_offset_z)
      ∷ ("local_position_waypoint_x", Value.real c.local_position_waypoint_x)
      ∷ ("local_position_waypoint_y", Value.real c.local_position_waypoint_y)
      ∷ ("local_position_waypoint_z", Value.real c.local_position_waypoint_z)
      ∷ ("global_position_offset_lat", Value.real c.global_position_offset_lat)
      ∷ ("global_position_offset_lon", Value.real c.global_position_offset_lon)
      ∷ ("global_position_offset_alt_amsl", Value.real c.global_position_offset_alt_amsl)
      ∷ ("global_position_waypoint_lat", Value.real c.global_position_waypoint_lat)
      ∷ ("global_position_waypoint_lon", Value.real c.global_position_waypoint_lon)
      ∷ ("global_position_waypoint_alt_amsl", Value.real c.global_position_waypoint_alt_amsl)
      ∷ ("camera_offset_x", Value.real c.camera_offset_x)
      ∷ ("camera_offset_y", Value.real c.camera_offset_y)
      ∷ ("camera_yaw", Value.real c.camera_yaw)
      ∷ ("safe_landing_enabled", Value.integer (pos c.simple_collision_avoid_enabled))
      ∷ ("safe_landing_area_square_size", Value.real c.safe_landing_area_square_size)
      ∷ ("safe_landing_distance_to_ground", Value.real c.safe_landing_distance_to_ground)
      ∷ ("safe_landing_on_no_safe_land", Value.text c.safe_landing_on_no_safe_land)
      ∷ (
        "safe_landing_try_landing_after_action",
        Value.integer (pos c.safe_landing_try_landing_after_action),
      )
      ∷ ("landing_site_search_speed", Value.real c.landing_site_search_speed)
      ∷ ("landing_site_search_max_distance", Value.real c.landing_site_search_max_distance)
      ∷ ("landing_site_search_min_height", Value.real c.landing_site_search_min_height)
      ∷ (
        "landing_site_search_min_distance_after_abort",
        Value.real c.landing_site_search_min_distance_after_abort,
      )
      ∷ ("landing_site_search_arrival_radius", Value.real c.landing_site_search_arrival_radius)
      ∷ ("landing_site_search_assess_time", Value.real c.landing_site_search_assess_time)
      ∷ ("landing_site_search_strategy", Value.text c.landing_site_search_strategy)
      ∷ ("landing_site_search_spiral_spacing", Value.real c.landing_site_search_spiral_spacing)
      ∷ ("landing_site_search_spiral_points", Value.integer c.landing_site_search_spiral_points)
      ∷ ("simple_collision_avoid_enabled", Value.integer (pos c.simple_collision_avoid_enabled))
      ∷ (
        "simple_collision_avoid_distance_threshold",
        Value.real c.simple_collision_avoid_distance_threshold,
      )
      ∷ (
        "simple_collision_avoid_action_on_condition_true",
        Value.text c.simple_collision_avoid_action_on_condition_true,
      )
      ∷ []
