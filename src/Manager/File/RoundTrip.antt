-- ===== src/Manager/File/RoundTrip.antt =====
-- `WriteToFile` and then `InitFromFile` (src/AutopilotManagerConfig.cpp).
use autopilot_manager.Common.{
  ℕ, ◌%◌, String, ◌≡◌, refl, ap, ◌∙◌, Bool, true, ◌&&◌, some, append, lines, ℤ, pos, Double, is_int,
  ltb, arith,
}
use autopilot_manager.Manager.Config.{Value, AutopilotManagerConfig, written_lines}
use autopilot_manager.Manager.File.{
  init_from_file, load, file_text, lines_text, apply_line, assignments, print,
}
use autopilot_manager.Manager.File.Lines.{IsPrinter, fits_all}
use autopilot_manager.Manager.File.Whole.{
  is_plain, key_ok, is_readable, all_readable, fold_store, plain-real, plain-integer, load-lines,
}

-- A flag is a `uint8_t`.
abbrev is_byte : ℕ → Bool
is_byte n = ltb n 256

-- The flags are `uint8_t`, the number of points is an `int`, and no text holds a key or the end of a line.
pub record IsWritable {W : Type 0} (c : AutopilotManagerConfig W) : Type 0 where
  pub enabled_byte : is_byte c.autopilot_manager_enabled ≡ true
  pub again_byte : is_byte c.safe_landing_try_landing_after_action ≡ true
  pub avoid_byte : is_byte c.simple_collision_avoid_enabled ≡ true
  pub points_int : is_int c.landing_site_search_spiral_points ≡ true
  pub input_type_plain : is_plain W c.decision_maker_input_type ≡ true
  pub script_plain : is_plain W c.script_to_call ≡ true
  pub api_plain : is_plain W c.api_call ≡ true
  pub no_safe_land_plain : is_plain W c.safe_landing_on_no_safe_land ≡ true
  pub strategy_plain : is_plain W c.landing_site_search_strategy ≡ true
  pub action_plain : is_plain W c.simple_collision_avoid_action_on_condition_true ≡ true

module _ {W : Type 0} where
  -- The configuration that the file gives back: its real numbers to six decimals, and one flag from
  -- another.
  unfoldable pub as_read : (W → W) → AutopilotManagerConfig W → AutopilotManagerConfig W
  as_read six c = record c {
    safe_landing_enabled = c.simple_collision_avoid_enabled;
    local_position_offset_x = six c.local_position_offset_x;
    local_position_offset_y = six c.local_position_offset_y;
    local_position_offset_z = six c.local_position_offset_z;
    local_position_waypoint_x = six c.local_position_waypoint_x;
    local_position_waypoint_y = six c.local_position_waypoint_y;
    local_position_waypoint_z = six c.local_position_waypoint_z;
    global_position_offset_lat = six c.global_position_offset_lat;
    global_position_offset_lon = six c.global_position_offset_lon;
    global_position_offset_alt_amsl = six c.global_position_offset_alt_amsl;
    global_position_waypoint_lat = six c.global_position_waypoint_lat;
    global_position_waypoint_lon = six c.global_position_waypoint_lon;
    global_position_waypoint_alt_amsl = six c.global_position_waypoint_alt_amsl;
    camera_offset_x = six c.camera_offset_x;
    camera_offset_y = six c.camera_offset_y;
    camera_yaw = six c.camera_yaw;
    safe_landing_area_square_size = six c.safe_landing_area_square_size;
    safe_landing_distance_to_ground = six c.safe_landing_distance_to_ground;
    landing_site_search_speed = six c.landing_site_search_speed;
    landing_site_search_max_distance = six c.landing_site_search_max_distance;
    landing_site_search_min_height = six c.landing_site_search_min_height;
    landing_site_search_min_distance_after_abort =
        six c.landing_site_search_min_distance_after_abort;
    landing_site_search_arrival_radius = six c.landing_site_search_arrival_radius;
    landing_site_search_assess_time = six c.landing_site_search_assess_time;
    landing_site_search_spiral_spacing = six c.landing_site_search_spiral_spacing;
    simple_collision_avoid_distance_threshold = six c.simple_collision_avoid_distance_threshold;
  }

module _ {W : Type 0} where
  -- The flags that were read.
  abbrev flagged : ℕ → ℕ → ℕ → AutopilotManagerConfig W → AutopilotManagerConfig W
  flagged enabled again avoid c = record c {
    autopilot_manager_enabled = enabled;
    safe_landing_enabled = avoid;
    safe_landing_try_landing_after_action = again;
    simple_collision_avoid_enabled = avoid;
  }

  stored :
      (six : W → W) (c c0 : AutopilotManagerConfig W)
      → fold_store six (written_lines c) c0
        ≡ flagged
            (c.autopilot_manager_enabled % 256)
            (c.safe_landing_try_landing_after_action % 256)
            (c.simple_collision_avoid_enabled % 256)
            (as_read six c)
  unfolding written_lines as_read
  stored six c c0 = refl

infixr 3 ◌⊗◌
◌⊗◌ : {a b : Bool} → a ≡ true → b ≡ true → a && b ≡ true
x ⊗ y = ground arith

byte-is_int : (n : ℕ) → is_byte n ≡ true → is_int (pos n) ≡ true
byte-is_int n h = ground arith

module _ {W : Type 0} (d : Double W) (six : W → W) (printer : IsPrinter d six) where
  line :
      (k : String) (v : Value W)
      → key_ok W k ≡ true
      → is_plain W (print ⦃d = d⦄ v) ≡ true
      → fits_all (assignments {W = W}) k v ≡ true
      → is_readable W d (k, v) ≡ true
  line k v key plain fit = key ⊗ plain ⊗ fit

  real_line :
      (k : String) (w : W)
      → key_ok W k ≡ true
      → fits_all (assignments {W = W}) k (Value.real w) ≡ true
      → is_readable W d (k, Value.real w) ≡ true
  real_line k w key fit = line k (Value.real w) key (plain-real d six printer w) fit

  integer_line :
      (k : String) (z : ℤ)
      → key_ok W k ≡ true
      → fits_all (assignments {W = W}) k (Value.integer z) ≡ is_int z && true
      → is_int z ≡ true
      → is_readable W d (k, Value.integer z) ≡ true
  integer_line k z key fit h =
      line k (Value.integer z) key (plain-integer d six printer z) (fit ∙ (h ⊗ refl))

  -- Every line of a configuration that can be written is read back.
  readable-lines :
      (c : AutopilotManagerConfig W) → IsWritable c → all_readable W d (written_lines c) ≡ true
  unfolding written_lines
  readable-lines c h =
      (integer_line "autopilot_manager_enabled" (pos c.autopilot_manager_enabled) refl refl
        (byte-is_int _ h.enabled_byte))
      ⊗ (line "decision_maker_input_type" (Value.text c.decision_maker_input_type) refl
          h.input_type_plain refl)
      ⊗ (line "script_to_call" (Value.text c.script_to_call) refl h.script_plain refl)
      ⊗ (line "api_call" (Value.text c.api_call) refl h.api_plain refl)
      ⊗ (real_line "local_position_offset_x" c.local_position_offset_x refl refl)
      ⊗ (real_line "local_position_offset_y" c.local_position_offset_y refl refl)
      ⊗ (real_line "local_position_offset_z" c.local_position_offset_z refl refl)
      ⊗ (real_line "local_position_waypoint_x" c.local_position_waypoint_x refl refl)
      ⊗ (real_line "local_position_waypoint_y" c.local_position_waypoint_y refl refl)
      ⊗ (real_line "local_position_waypoint_z" c.local_position_waypoint_z refl refl)
      ⊗ (real_line "global_position_offset_lat" c.global_position_offset_lat refl refl)
      ⊗ (real_line "global_position_offset_lon" c.global_position_offset_lon refl refl)
      ⊗ (real_line "global_position_offset_alt_amsl" c.global_position_offset_alt_amsl refl refl)
      ⊗ (real_line "global_position_waypoint_lat" c.global_position_waypoint_lat refl refl)
      ⊗ (real_line "global_position_waypoint_lon" c.global_position_waypoint_lon refl refl)
      ⊗ (real_line "global_position_waypoint_alt_amsl" c.global_position_waypoint_alt_amsl refl
          refl)
      ⊗ (real_line "camera_offset_x" c.camera_offset_x refl refl)
      ⊗ (real_line "camera_offset_y" c.camera_offset_y refl refl)
      ⊗ (real_line "camera_yaw" c.camera_yaw refl refl)
      ⊗ (integer_line "safe_landing_enabled" (pos c.simple_collision_avoid_enabled) refl refl
          (byte-is_int _ h.avoid_byte))
      ⊗ (real_line "safe_landing_area_square_size" c.safe_landing_area_square_size refl refl)
      ⊗ (real_line "safe_landing_distance_to_ground" c.safe_landing_distance_to_ground refl refl)
      ⊗ (line "safe_landing_on_no_safe_land" (Value.text c.safe_landing_on_no_safe_land) refl
          h.no_safe_land_plain refl)
      ⊗ (integer_line "safe_landing_try_landing_after_action"
          (pos c.safe_landing_try_landing_after_action) refl refl (byte-is_int _ h.again_byte))
      ⊗ (real_line "landing_site_search_speed" c.landing_site_search_speed refl refl)
      ⊗ (real_line "landing_site_search_max_distance" c.landing_site_search_max_distance refl refl)
      ⊗ (real_line "landing_site_search_min_height" c.landing_site_search_min_height refl refl)
      ⊗ (real_line "landing_site_search_min_distance_after_abort"
          c.landing_site_search_min_distance_after_abort refl refl)
      ⊗ (real_line "landing_site_search_arrival_radius" c.landing_site_search_arrival_radius refl
          refl)
      ⊗ (real_line "landing_site_search_assess_time" c.landing_site_search_assess_time refl refl)
      ⊗ (line "landing_site_search_strategy" (Value.text c.landing_site_search_strategy) refl
          h.strategy_plain refl)
      ⊗ (real_line "landing_site_search_spiral_spacing" c.landing_site_search_spiral_spacing refl
          refl)
      ⊗ (integer_line "landing_site_search_spiral_points" c.landing_site_search_spiral_points refl
          refl h.points_int)
      ⊗ (integer_line "simple_collision_avoid_enabled" (pos c.simple_collision_avoid_enabled) refl
          refl (byte-is_int _ h.avoid_byte))
      ⊗ (real_line "simple_collision_avoid_distance_threshold"
          c.simple_collision_avoid_distance_threshold refl refl)
      ⊗ (line "simple_collision_avoid_action_on_condition_true"
          (Value.text c.simple_collision_avoid_action_on_condition_true) refl h.action_plain refl)
      ⊗ refl

  title :
      (rest : String) (c : AutopilotManagerConfig W)
      → load ⦃d = d⦄ (lines (append "[AutopilotManagerConfig]" (String.◌∷◌ "\n" rest))) c
        ≡ load ⦃d = d⦄ (lines rest) c
  unfolding load apply_line
  title rest c = refl

  byte : (n : ℕ) → is_byte n ≡ true → n % 256 ≡ n
  byte n h = ground arith

  flags :
      (c : AutopilotManagerConfig W)
      → IsWritable c
      → flagged
          (c.autopilot_manager_enabled % 256)
          (c.safe_landing_try_landing_after_action % 256)
          (c.simple_collision_avoid_enabled % 256)
          (as_read six c)
        ≡ as_read six c
  unfolding as_read
  flags c h = rw (byte _ h.enabled_byte, byte _ h.again_byte, byte _ h.avoid_byte) refl

  -- A configuration that is written to a file is read from it, over whatever configuration, as itself, but
  -- for two things: its real numbers are rounded to the six decimals that they are printed with, and its
  -- flag of safe landing is the one of the collision avoidance. The condition is that the flags are bytes,
  -- that the number of points is an `int`, and that no text holds a key of the file or the end of a line.
  pub file_round_trip :
      (c c0 : AutopilotManagerConfig W)
      → IsWritable c
      → init_from_file ⦃d = d⦄ (some (file_text ⦃d = d⦄ c)) c0 ≡ some (as_read six c, true)
  unfolding init_from_file file_text
  file_round_trip c c0 h =
      rw
        (
          title (lines_text ⦃d = d⦄ (written_lines c)) c0
              ∙ load-lines d six printer (written_lines c) c0 (readable-lines c h)
              ∙ ap some (stored six c c0 ∙ flags c h),
          init_from_file,
        )
        refl
