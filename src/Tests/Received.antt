-- ===== src/Tests/Received.antt =====
-- The program after its start and a depth image, which the tests of the whole begin from
-- (src/AutopilotManager.cpp).
use autopilot_manager.Common.{ℕ, ◌≡◌, refl, Bool, true, false, none, some, List, [], ◌∷◌}
use autopilot_manager.Types.{FlightMode, LandedState, MapperState}
use autopilot_manager.Landing.Mapper.{LandingMapper}
use autopilot_manager.Sensor.{Image, ImageDownsampler}
use autopilot_manager.Manager.{Manager, initial_provisioning}
use autopilot_manager.Manager.File.{init_from_file}
use autopilot_manager.System.{System, receive_image}
use autopilot_manager.Startup.{
  Surroundings, Started, find_system, discover, start_modules, start, construct,
}
use autopilot_manager.Tests.Fixtures.{
  Milli, milli, metres, Phase as Search, phases, configuration, in_flight,
}
use autopilot_manager.Tests.OnManager.{memory}

-- A manager with the collision avoidance as its input, at a distance of 5 m.
abbrev pub avoiding : Manager Milli
avoiding = record {
  members = record memory {
    autopilot_manager_enabled = 1;
    decision_maker_input_type = "SIMPLE_COLLISION_AVOIDANCE";
    simple_collision_avoid_enabled = 1;
    simple_collision_avoid_distance_threshold = metres 5;
    simple_collision_avoid_action_on_condition_true = "HOLD";
  };
  file = none;
}

instance abbrev pub landing_mapper : LandingMapper Milli Unit Unit
landing_mapper = record {
  update_vehicle_position = λ p m. m;
  update_vehicle_orientation = λ q m. m;
  update_cloud = λ points m. m;
  set_image_height_estimate = λ h m. m;
  check_landing_area = λ m. (MapperState.can_land, m);
  get_height_above_obstacle = λ m. metres 1;
  to_world = λ image p. (metres 0, metres 0, metres 0);
  float_max = metres 1000;
}

-- Its images have one pixel, in the middle, at the depth that the bytes are.
abbrev pub downsampler : ImageDownsampler Milli ℕ Bool
downsampler = record {
  get_instance = λ is_float width height. is_float;
  downsample =
      λ used bytes. (record { x = metres 32; y = metres 24; depth = metres bytes } ∷ [], used);
}

abbrev pub surroundings : Surroundings Milli Search Unit Unit Bool
surroundings = record {
  now = 7;
  intrinsics = record { rw_pixels = 64; rh_pixels = 48 };
  planner = Search.idle;
  memory = in_flight FlightMode.mission LandedState.in_air Search.idle (configuration "" "");
  node = record { get_parameter_or = λ name w. w; get_flag_or = λ name b. b };
  new_mapper = λ p. tt;
  normalized_rpy = λ a b c. (a, b, c, c);
}

abbrev pub itself : Bool → Bool
itself b = b

abbrev pub two_events : List (List Bool)
two_events = (false ∷ []) ∷ (false ∷ true ∷ []) ∷ []

abbrev pub system : System Milli Search Unit Unit Bool
system = (start_modules surroundings avoiding).0

pub constructed :
    construct itself true two_events surroundings avoiding ≡ some (Started.runs system)
unfolding construct start discover find_system initial_provisioning init_from_file
constructed = refl

abbrev pub site : Unit {0} → Milli → Milli → MapperState
site m x y = MapperState.can_land

abbrev pub image : Image ℕ
image = record {
  encoding = "16UC1";
  width = 640;
  height = 480;
  data_bytes = 3;
  sec = 1;
  nanosec = 250;
}

abbrev pub transform : (Milli × Milli × Milli) × Unit {0}
transform = ((metres 0, metres 0, metres 0), tt)

-- An image is received, and the distance found in it, in the air.
abbrev pub received : System Milli Search Unit Unit Bool
received = receive_image ⦃ids = downsampler⦄ 9 image (some transform) system
