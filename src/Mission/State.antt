-- ===== src/Mission/State.antt =====
-- The state of `MissionManager` (src/modules/mission_manager/MissionManager.hpp), what it reads from
-- its callbacks, what it sends through MAVSDK, and the landing planner as an interface.
use autopilot_manager.Common.{ℕ, ℤ, String, ◌≡◌, ◌⊎◌, Bool, true, false, Option, List, ◌∷◌}
use autopilot_manager.Types.{FlightMode, LandedState, MapperState, StatusTextType}

-- `MissionManagerConfiguration`. A `uint8_t` flag is the truth value that the code reads from it.
pub record Configuration (W : Type 0) : Type 0 where
  pub autopilot_manager_enabled : Bool
  pub decision_maker_input_type : String
  pub script_to_call : String
  pub api_call : String
  pub local_position_offset_x : W
  pub local_position_offset_y : W
  pub local_position_offset_z : W
  pub local_position_waypoint_x : W
  pub local_position_waypoint_y : W
  pub local_position_waypoint_z : W
  pub global_position_offset_lat : W
  pub global_position_offset_lon : W
  pub global_position_offset_alt_amsl : W
  pub global_position_waypoint_lat : W
  pub global_position_waypoint_lon : W
  pub global_position_waypoint_alt_amsl : W
  pub safe_landing_enabled : Bool
  pub safe_landing_distance_to_ground : W
  pub safe_landing_on_no_safe_land : String
  pub safe_landing_try_landing_after_action : Bool
  pub landing_site_search_speed : W
  pub landing_site_search_max_distance : W
  pub landing_site_search_min_height : W
  pub landing_site_search_min_distance_after_abort : W
  pub landing_site_search_arrival_radius : W
  pub landing_site_search_assess_time : W
  pub landing_site_search_strategy : String
  pub landing_site_search_spiral_spacing : W
  pub landing_site_search_spiral_points : ℤ
  pub simple_collision_avoid_enabled : Bool
  pub simple_collision_avoid_distance_threshold : W
  pub simple_collision_avoid_action_on_condition_true : String

-- `landing_planner::LandingPlannerConfig`, the fields that the code sets.
pub record LandingPlannerConfig (W : Type 0) : Type 0 where
  pub max_distance : W
  pub min_height : W
  pub max_height : W
  pub min_distance_after_abort : W
  pub waypoint_arrival_radius : W
  pub site_assess_time : W
  pub search_strategy : String
  pub spiral_search_spacing : W
  pub spiral_search_points : ℤ

-- `landing_planner::LandingPlanner`, a library of its own. `update_search` is also given the callback
-- of `setLandingStateAtPositionCallback`; `waypoint_updated` may change the planner.
pub record LandingPlanner (W P : Type 0) : Type 0 where
  pub is_active : P → Bool
  pub is_ended : P → Bool
  pub should_land : P → Bool
  pub start_search : W → W → W → W → LandingPlannerConfig W → P → P
  pub end_search : P → P
  pub reset : P → P
  pub abort_landing : W → W → P → P
  pub update_search : (W → W → MapperState) → W → W → W → W → Bool → MapperState → P → P
  pub waypoint_updated : P → Bool × P
  pub get_current_waypoint : P → W × W
  pub get_search_altitude : P → W

-- The life cycle of a search, as the code relies on it: ending it makes it ended and not active, and
-- an active search stays active until it has ended, whatever it is updated with.
pub record IsLandingPlanner {W P : Type 0} (lp : LandingPlanner W P) : Type 0 where
  pub is_active-end_search : (p : P) → lp.is_active (lp.end_search p) ≡ false
  pub is_ended-end_search : (p : P) → lp.is_ended (lp.end_search p) ≡ true
  pub is_active-reset : (p : P) → lp.is_active (lp.reset p) ≡ false
  pub abort_landing_live :
      (altitude height : W) (p : P)
      → lp.is_active p ≡ true
      → (lp.is_active (lp.abort_landing altitude height p) ≡ true)
        ⊎ (lp.is_ended (lp.abort_landing altitude height p) ≡ true)
  pub update_search_live :
      (site : W → W → MapperState) (x y altitude height : W) (still : Bool) (s : MapperState)
      (p : P)
      → lp.is_active p ≡ true
      → (lp.is_active (lp.update_search site x y altitude height still s p) ≡ true)
        ⊎ (lp.is_ended (lp.update_search site x y altitude height still s p) ≡ true)
  pub is_active-waypoint_updated : (p : P) → lp.is_active (lp.waypoint_updated p).1 ≡ lp.is_active p
  pub is_ended-waypoint_updated : (p : P) → lp.is_ended (lp.waypoint_updated p).1 ≡ lp.is_ended p

-- `mavlink_trajectory_representation_waypoints_t`, the fields that the code writes; `rest` is what it
-- leaves as it was received.
pub record Trajectory (W : Type 0) : Type 0 where
  pub valid_points : ℕ
  pub pos_x : W
  pub pos_y : W
  pub pos_z : W
  pub pos_yaw : W
  pub vel_x : W
  pub vel_y : W
  pub vel_z : W
  pub rest : List ℕ

-- The calls on MAVSDK's plugins that reach the vehicle or the operator. A text is the list of the
-- pieces that the code concatenates.
pub data Command (W : Type 0) : Type 0 where
  hold return_to_launch land : Command W
  goto_location : W → W → W → W → Command W
  status_text : StatusTextType → List String → Command W
  send_trajectory : Trajectory W → Command W

-- The members of `MissionManager` that its telemetry subscriptions write.
pub record Telemetry (W : Type 0) : Type 0 where
  pub flight_mode : FlightMode
  pub landed_state : LandedState
  pub previous_landed_state : LandedState
  pub is_global_position_ok : Bool
  pub is_home_position_ok : Bool
  pub current_latitude : W
  pub current_longitude : W
  pub current_altitude_amsl : W
  pub current_pos_x : W
  pub current_pos_y : W
  pub current_pos_z : W
  pub current_vel_x : W
  pub current_vel_y : W
  pub current_vel_z : W
  pub current_yaw : W

-- The other members. `last_time` and `time_last_traj` are in nanoseconds. `velocity` is the static
-- `vel` of `on_mavlink_trajectory_message`, none before its first use. `log` holds the commands sent,
-- the newest first.
pub record Mission (W P : Type 0) : Type 0 where
  pub config : Configuration W
  pub telemetry : Telemetry W
  pub oa_enabled : Bool
  pub action_in_progress : Bool
  pub global_origin_reference_set : Bool
  pub ref_latitude : W
  pub ref_longitude : W
  pub ref_altitude : W
  pub landing_speed : W
  pub landing_crawl_speed : W
  pub landing_crawl_altitude : W
  pub is_stationary_debounce_counter : ℕ
  pub new_latitude : W
  pub new_longitude : W
  pub new_altitude_amsl : W
  pub new_x : W
  pub new_y : W
  pub new_yaw : W
  pub previously_set_waypoint_altitude_amsl : W
  pub landing_planner : P
  pub last_time : ℕ
  pub time_last_traj : ℕ
  pub is_healthy : Bool
  pub velocity : Option (W × W)
  pub log : List (Command W)

-- What one round of the decision maker reads: the clocks, in nanoseconds, the callbacks (the distance
-- is read twice), the autopilot's parameters and the conversion of a local position to a global one
-- about a reference, which is MAVSDK's.
pub record Inputs (W : Type 0) : Type 0 where
  pub config_update : Configuration W
  pub system_now : ℕ
  pub ros_now : ℕ
  pub landing_state : MapperState
  pub height_above_obstacle : W
  pub landing_state_at : W → W → MapperState
  pub distance_to_obstacle : W
  pub distance_to_obstacle_again : W
  pub get_param_float : String → Option W
  pub global_from_local : W × W → W × W → W × W

abbrev pub command : {W P : Type 0} → Command W → Mission W P → Mission W P
command c m = record m { log = c ∷ m.log }
