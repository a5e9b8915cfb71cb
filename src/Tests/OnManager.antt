-- ===== src/Tests/OnManager.antt =====
-- The requests and the main loop at concrete inputs (src/AutopilotManager.cpp).
use autopilot_manager.Common.{
  pos, ◌⊎◌, inl, inr, has, has_letter, has_letter-show, has-show, read_int-show, ◌≡◌, refl, true,
  false, none, some, List, [], ◌∷◌,
}
use autopilot_manager.Manager.Config.{AutopilotManagerConfig, default_config}
use autopilot_manager.Manager.Message.{Arguments, ParsedMessage, Padding, init_from_message}
use autopilot_manager.Manager.Memory.{Members, set_configuration}
use autopilot_manager.Manager.{Request, Manager}
use autopilot_manager.Manager.File.{init_from_file, file_text}
use autopilot_manager.Manager.File.Lines.{IsPrinter}
use autopilot_manager.Manager.File.RoundTrip.{IsWritable, as_read, file_round_trip}
use autopilot_manager.Manager.Requests.{set_of}
use autopilot_manager.Manager.Refinement.{
  Represents, handle_requests, specified_replies, specified_config, requests_refine,
}
use autopilot_manager.Tests.Fixtures.{Milli, milli, metres}

abbrev config : AutopilotManagerConfig Milli
config = record {
  autopilot_manager_enabled = 0;
  decision_maker_input_type = "SAFE_LANDING";
  script_to_call = "";
  api_call = "";
  local_position_offset_x = metres 0;
  local_position_offset_y = metres 0;
  local_position_offset_z = metres 0;
  local_position_waypoint_x = metres 0;
  local_position_waypoint_y = metres 0;
  local_position_waypoint_z = metres 0;
  global_position_offset_lat = metres 0;
  global_position_offset_lon = metres 0;
  global_position_offset_alt_amsl = metres 0;
  global_position_waypoint_lat = metres 0;
  global_position_waypoint_lon = metres 0;
  global_position_waypoint_alt_amsl = metres 0;
  camera_offset_x = metres 0;
  camera_offset_y = metres 0;
  camera_yaw = metres 90;
  safe_landing_enabled = 1;
  safe_landing_area_square_size = metres 0;
  safe_landing_distance_to_ground = metres 0;
  safe_landing_on_no_safe_land = "";
  safe_landing_try_landing_after_action = 0;
  landing_site_search_speed = metres 2;
  landing_site_search_max_distance = metres 0;
  landing_site_search_min_height = metres 0;
  landing_site_search_min_distance_after_abort = metres 0;
  landing_site_search_arrival_radius = metres 0;
  landing_site_search_assess_time = metres 0;
  landing_site_search_strategy = "";
  landing_site_search_spiral_spacing = metres 0;
  landing_site_search_spiral_points = pos 0;
  simple_collision_avoid_enabled = 0;
  simple_collision_avoid_distance_threshold = metres 0;
  simple_collision_avoid_action_on_condition_true = "";
}

abbrev arguments : Arguments Milli
arguments = record {
  autopilot_manager_enabled = 0;
  decision_maker_input_type = "SAFE_LANDING";
  script_to_call = "";
  api_call = "";
  local_position_offset_x = metres 0;
  local_position_offset_y = metres 0;
  local_position_offset_z = metres 0;
  local_position_waypoint_x = metres 0;
  local_position_waypoint_y = metres 0;
  local_position_waypoint_z = metres 0;
  global_position_offset_lat = metres 0;
  global_position_offset_lon = metres 0;
  global_position_offset_alt_amsl = metres 0;
  global_position_waypoint_lat = metres 0;
  global_position_waypoint_lon = metres 0;
  global_position_waypoint_alt_amsl = metres 0;
  safe_landing_enabled = 1;
  safe_landing_area_square_size = metres 0;
  safe_landing_distance_to_ground = metres 0;
  safe_landing_on_no_safe_land = "";
  safe_landing_try_landing_after_action = 0;
  landing_site_search_max_distance = metres 0;
  landing_site_search_min_height = metres 0;
  simple_collision_avoid_enabled = 0;
  simple_collision_avoid_distance_threshold = metres 0;
  simple_collision_avoid_action_on_condition_true = "";
}

abbrev pub memory : Members Milli
memory = record {
  autopilot_manager_enabled = 0;
  decision_maker_input_type = "";
  script_to_call = "";
  api_call = "";
  local_position_offset_x = metres 0;
  local_position_offset_y = metres 0;
  local_position_offset_z = metres 0;
  local_position_waypoint_x = metres 0;
  local_position_waypoint_y = metres 0;
  local_position_waypoint_z = metres 0;
  global_position_offset_lat = metres 0;
  global_position_offset_lon = metres 0;
  global_position_offset_alt_amsl = metres 0;
  global_position_waypoint_lat = metres 0;
  global_position_waypoint_lon = metres 0;
  global_position_waypoint_alt_amsl = metres 0;
  camera_offset_x = metres 0;
  camera_offset_y = metres 0;
  camera_yaw = metres 45;
  safe_landing_enabled = 0;
  safe_landing_area_square_size = metres 0;
  safe_landing_distance_to_ground = metres 0;
  safe_landing_on_no_safe_land = "";
  safe_landing_try_landing_after_action = 0;
  landing_site_search_speed = metres 0;
  landing_site_search_max_distance = metres 0;
  landing_site_search_min_height = metres 0;
  landing_site_search_min_distance_after_abort = metres 0;
  landing_site_search_arrival_radius = metres 0;
  landing_site_search_assess_time = metres 0;
  landing_site_search_strategy = "";
  landing_site_search_spiral_spacing = metres 0;
  landing_site_search_spiral_points = pos 0;
  simple_collision_avoid_enabled = 0;
  simple_collision_avoid_distance_threshold = metres 0;
  simple_collision_avoid_action_on_condition_true = "";
}

abbrev before : Manager Milli
before = record { members = memory; file = none }

-- The printer of the numbers of the tests gives every number back.
abbrev exact : Milli → Milli
exact w = w

read-written : (w : Milli) → milli.stod (milli.to_string w) ≡ some w
read-written none = refl
read-written (some z) = rw (has_letter-show z, read_int-show z) refl

milli-spelled :
    (w : Milli)
    → (has_letter (milli.to_string w) ≡ false)
      ⊎ ((milli.to_string w ≡ "nan")
          ⊎ ((milli.to_string w ≡ "-nan")
              ⊎ ((milli.to_string w ≡ "inf") ⊎ (milli.to_string w ≡ "-inf"))))
milli-spelled none = inr (inl refl)
milli-spelled (some z) = inl (has_letter-show z)

milli-one_line : (w : Milli) → has b'\n' (milli.to_string w) ≡ false
milli-one_line none = refl
milli-one_line (some z) = has-show z

printer : IsPrinter milli exact
printer = record {
  stod-to_string = read-written;
  spelled = milli-spelled;
  one_line = milli-one_line;
}

config-IsWritable : IsWritable config
config-IsWritable = record {
  enabled_byte = refl;
  again_byte = refl;
  avoid_byte = refl;
  points_int = refl;
  input_type_plain = refl;
  script_plain = refl;
  api_plain = refl;
  no_safe_land_plain = refl;
  strategy_plain = refl;
  action_plain = refl;
}

arguments-IsWritable : IsWritable (set_of arguments)
unfolding init_from_message default_config
arguments-IsWritable = record {
  enabled_byte = refl;
  again_byte = refl;
  avoid_byte = refl;
  points_int = refl;
  input_type_plain = refl;
  script_plain = refl;
  api_plain = refl;
  no_safe_land_plain = refl;
  strategy_plain = refl;
  action_plain = refl;
}

file_round_trip_example :
    init_from_file (some (file_text config)) config ≡ some (as_read exact config, true)
file_round_trip_example = file_round_trip milli exact printer config config config-IsWritable

abbrev elsewhere : Manager Milli
elsewhere = record { members = record memory { camera_yaw = metres 1 }; file = some "api_call=a" }

abbrev padding : Padding
padding = record {
  autopilot_manager_enabled = 0;
  safe_landing_enabled = 0;
  safe_landing_try_landing_after_action = 0;
  simple_collision_avoid_enabled = 0;
}

abbrev later : Padding
later = record padding { safe_landing_enabled = 7 }

-- The flag is a word of which one byte is kept.
abbrev wide : Arguments Milli
wide = record arguments { safe_landing_enabled = 257 }

abbrev holding : Manager Milli
holding = record { members = (set_configuration config memory).0; file = some (file_text config) }

holds_config : Represents milli config holding
unfolding set_configuration
holds_config = record { held = refl; stored = refl; writable = config-IsWritable }

-- The third message is in error after two of its arguments.
abbrev requests : List (Padding × Request Milli)
requests =
    (later, Request.get_config)
    ∷ (padding, Request.set_config (ParsedMessage.parsed arguments))
    ∷ (later, Request.set_config (ParsedMessage.failed 2 wide))
    ∷ (later, Request.get_config)
    ∷ []

requests_refine_example :
    (n : Manager Milli) × (handle_requests requests holding
      ≡ some (n, specified_replies exact requests config))
    × Represents milli (specified_config exact requests config) n
requests_refine_example =
    requests_refine milli exact printer requests config holding holds_config
      (tt, (arguments-IsWritable, (tt, (tt, tt))))
