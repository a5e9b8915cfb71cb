-- ===== src/Tests/OnDepth.antt =====
-- The sensor manager, the landing manager and the collision avoidance at concrete inputs
-- (src/modules/sensor_manager/SensorManager.cpp, src/modules/landing_manager/LandingManager.cpp,
-- src/modules/collision_avoidance_manager/CollisionAvoidanceManager.cpp).
use autopilot_manager.Common.{
  ℕ, zero, suc, ◌+◌, ◌≡◌, ◌⊎◌, refl, Bool, true, false, none, some, List, [], ◌∷◌, pos, arith, All,
  length,
}
use autopilot_manager.Types.{MapperState}
use autopilot_manager.Landing.Health.{Health, HealthStatus, is_healthy, health_check}
use autopilot_manager.Landing.Parameters.{Configuration, Parameters, IsUnordered}
use autopilot_manager.Landing.Cloud.{DepthPixel, DepthImage, scan, is_usable, point_height}
use autopilot_manager.Landing.Mapper.{LandingMapper, Landing, mapper}
use autopilot_manager.Landing.NullImages.{null_images, null_images_forgotten}
use autopilot_manager.Landing.Points.{scan_lowest}
use autopilot_manager.Landing.States.{mapper_publishes}
use autopilot_manager.Manager.Memory.{CollisionConfiguration}
use autopilot_manager.Collision.{
  CollisionAvoidance, is_pixel_valid, region, filter_pixels_to_roi, compute_distance_to_obstacle,
}
use autopilot_manager.Collision.Nearest.{NotBelow, IsOneOf, nearest_published, empty_region_faults}
use autopilot_manager.Sensor.{
  SensorHealth, Image, ImageDownsampler, SensorManager, health_check as sensor_check,
}
use autopilot_manager.Sensor.Reports.{health_checks, report_not_lost}
use autopilot_manager.Sensor.Images.{check_images, same_nanoseconds_unhealthy}
use autopilot_manager.Tests.Fixtures.{Milli, milli, metres}
use autopilot_manager.Tests.Laws.{milli-IsOrder}

abbrev fresh : Health
fresh = record {
  count_image_null = 0;
  count_timestamp_old = 0;
  last_timestamp = pos 20;
  health_status = HealthStatus.healthy;
  reports = [];
}

null_images_forgotten_example : is_healthy (null_images 40000 fresh) ≡ true
null_images_forgotten_example =
    null_images_forgotten 39999 fresh refl (omega arith) (omega arith) (omega arith)

abbrev landing_config : Milli → Configuration Milli
landing_config altitude = record {
  autopilot_manager_enabled = true;
  safe_landing_enabled = true;
  safe_landing_area_square_size = metres 3;
  safe_landing_distance_to_ground = altitude;
}

abbrev parameters : Parameters Milli
parameters = record {
  max_search_altitude_m = metres 10;
  max_window_size_m = metres 5;
  search_altitude_m = metres 4;
  window_size_m = metres 4;
}

nan-IsUnordered : IsUnordered (landing_config none).safe_landing_distance_to_ground
nan-IsUnordered = record { lt_left = λ y. refl; lt_right = right; eq_left = λ y. refl }
  where
    right : (y : Milli) → milli.lt y none ≡ false
    right none = refl
    right (some y) = refl

abbrev pixel : ℕ → Milli → DepthPixel Milli
pixel column depth = record { x = metres column; y = metres 5; depth = depth }

abbrev pixels : List (DepthPixel Milli)
pixels = pixel 5 (metres 3) ∷ pixel 5 none ∷ pixel 5 (metres 20) ∷ pixel 9 (metres 2) ∷ []

abbrev straight : DepthPixel Milli → Milli × Milli × Milli
straight p = (p.x, p.y, p.depth)

scan_lowest_example :
    let lowest = (scan straight (metres 0) pixels ([], metres 100)).1 in
    ((lowest ≡ metres 100) ⊎ (milli.lt lowest (metres 100) ≡ true))
    × All
        (λ p.
          (is_usable straight (metres 0) p ≡ false)
          ⊎ (milli.lt (point_height straight (metres 0) p) lowest ≡ false))
        pixels
scan_lowest_example = scan_lowest straight (metres 0) milli-IsOrder pixels ([], metres 100)

instance abbrev landing_mapper : LandingMapper Milli Unit ℕ
landing_mapper = record {
  update_vehicle_position = λ p m. m;
  update_vehicle_orientation = λ q m. m;
  update_cloud = λ points m. m + length points;
  set_image_height_estimate = λ h m. m;
  check_landing_area = λ m. (MapperState.can_land, m);
  get_height_above_obstacle = λ m. metres m;
  to_world = λ image p. straight p;
  float_max = metres 1000;
}

abbrev depth_image : List (DepthPixel Milli) → DepthImage Milli Unit
depth_image ps = record {
  depth_pixel_array = ps;
  rw_pixels = 10;
  rh_pixels = 10;
  position = (metres 0, metres 0, metres 0);
  orientation = tt;
  timestamp_ns = pos 30;
}

abbrev landing : Landing Milli ℕ
landing = record {
  config = landing_config (metres 6);
  parameters = parameters;
  oa_enabled = true;
  health = fresh;
  state = MapperState.unknown;
  height_above_obstacle = metres 0;
  landing_mapper = 0;
  images_processed = 0;
  points_processed = 0;
  points_received = 0;
  published = [];
}

mapper_publishes_example :
    let n = mapper (landing_config (metres 6)) (some (depth_image pixels)) landing in
    let healthy = is_healthy (health_check (some (pos 30)) fresh) in
    (n.published ≡ n.state ∷ [])
    × (((healthy ≡ false) × (n.state ≡ MapperState.unhealthy) × (n.images_processed ≡ 0))
        ⊎ (((healthy ≡ true)
              × (true ≡ false)
              × (n.images_processed ≡ 0)
              × (n.state ≡ MapperState.unknown))
            ⊎ ((healthy ≡ true)
                × (true ≡ true)
                × (n.images_processed ≡ 1)
                × ((m : ℕ) × (landing_mapper.check_landing_area m ≡ (n.state, n.landing_mapper)))
                × (n.height_above_obstacle ≡ metres n.landing_mapper))))
mapper_publishes_example =
    mapper_publishes (landing_config (metres 6)) (some (depth_image pixels)) landing refl refl

abbrev collision_config : CollisionConfiguration
collision_config = record {
  autopilot_manager_enabled = true;
  simple_collision_avoid_enabled = true;
}

abbrev avoidance : CollisionAvoidance Milli
avoidance = record {
  roi_settings = record {
    width_fraction = some (pos 200);
    height_fraction = some (pos 200);
    width_center = some (pos 500);
    height_center = some (pos 500);
  };
  depth = none;
  published = [];
}

nearest_published_example :
    let roi = region avoidance.roi_settings 10 10 in
    (n : CollisionAvoidance Milli) × (compute_distance_to_obstacle
        (metres 1000)
        collision_config
        (some (depth_image (pixel 5 (metres 3) ∷ pixel 9 (metres 2) ∷ [])))
        avoidance
      ≡ some n)
    × (n.published ≡ n.depth ∷ [])
    × ((nearest : DepthPixel Milli) × IsOneOf nearest (pixel 5 (metres 3) ∷ [])
        × (n.depth ≡ nearest.depth))
    × NotBelow roi n.depth (pixel 5 (metres 3) ∷ pixel 9 (metres 2) ∷ [])
unfolding region filter_pixels_to_roi is_pixel_valid
nearest_published_example =
    nearest_published milli-IsOrder (metres 1000) collision_config
      (depth_image (pixel 5 (metres 3) ∷ pixel 9 (metres 2) ∷ [])) avoidance (pixel 5 (metres 3)) []
      refl refl refl tt

empty_region_faults_example :
    compute_distance_to_obstacle
      (metres 1000)
      collision_config
      (some (depth_image (pixel 9 (metres 2) ∷ [])))
      avoidance
    ≡ none
unfolding region is_pixel_valid
empty_region_faults_example =
    empty_region_faults (metres 1000) collision_config (depth_image (pixel 9 (metres 2) ∷ []))
      avoidance refl (omega arith) (refl, tt)

abbrev sensors : Bool → SensorManager Milli Unit Unit
sensors due = record {
  image_downsampler = none;
  intrinsics = record { rw_pixels = 10; rh_pixels = 10 };
  downsampled_depth = none;
  time_start = some 0;
  time_last_odometry = 7_000_000_000;
  time_last_image = 1_000_000_000;
  health_status = SensorHealth.unhealthy_images;
  should_report_status = due;
  oa_enabled = false;
  messages = [];
}

report_not_lost_example :
    let w = health_checks (6_000_000_000 ∷ 7_000_000_000 ∷ []) (sensors true) in
    (w.messages ≡ [])
    × ((sensor_check 8_000_000_000 (record w { oa_enabled = true })).messages
        ≡ SensorHealth.unhealthy_images ∷ [])
report_not_lost_example =
    report_not_lost (6_000_000_000 ∷ 7_000_000_000 ∷ []) 0 8_000_000_000 (sensors true) refl refl
      refl (omega arith)

instance abbrev downsampler : ImageDownsampler Milli Unit Unit
downsampler = record {
  get_instance = λ float width height. tt;
  downsample = λ d bytes. (pixels, d);
}

abbrev message : Image Unit
message = record {
  encoding = "32FC1";
  width = 100;
  height = 100;
  data_bytes = tt;
  sec = 7;
  nanosec = 20;
}

-- One image in each second, the latest one first.
abbrev each_second : ℕ → List (ℕ × Image (Unit {0}) × ((Milli × Milli × Milli) × Unit {0}))
each_second zero = []
each_second (suc n) =
    (n, record message { sec = n }, ((metres 0, metres 0, metres 1), tt)) ∷ each_second n

each_second-same : (n : ℕ) → All (λ a. a.1.nanosec ≡ 20) (each_second n)
each_second-same zero = tt
each_second-same (suc n) = (refl, each_second-same n)

abbrev receiving : SensorManager Milli Unit Unit
receiving = record (sensors true) {
  image_downsampler = some tt;
  intrinsics = record { rw_pixels = 64; rh_pixels = 48 };
}

same_nanoseconds_unhealthy_example :
    is_healthy (check_images (each_second 51) receiving fresh).1 ≡ false
unfolding is_healthy
same_nanoseconds_unhealthy_example =
    same_nanoseconds_unhealthy (each_second 51) 20 receiving fresh (each_second-same 51) refl
      (omega arith) refl refl refl
