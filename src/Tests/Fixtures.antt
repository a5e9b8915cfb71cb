-- ===== src/Tests/Fixtures.antt =====
-- Concrete stand-ins for what the model takes as parameters: numbers in thousandths, with `none` for
-- NaN, a landing planner of four states, and a mission manager in flight with its inputs.
use autopilot_manager.Common.{
  ℕ, ◌*◌, ◌/◌, ◌^◌, String, ◌≡◌, refl, inl, Bool, true, false, not, ◌&&◌, Option, none, some, [], ℤ,
  pos, negsuc, pos_part, ◌+ℤ◌, ◌-ℤ◌, ◌*ℤ◌, div_trunc, magnitude, ltb_ℤ, Double, HasNan,
  if◌then◌else◌, show_int, read_int, has_letter,
}
use autopilot_manager.Types.{FlightMode, LandedState, MapperState}
use autopilot_manager.Mission.State.{
  Configuration, LandingPlanner, IsLandingPlanner, Mission, Inputs,
}

abbrev pub Milli : Type 0
Milli = Option ℤ

abbrev both {ℓ} : {A : Type ℓ} → A → (ℤ → ℤ → A) → Milli → Milli → A
both nothing f (some a) (some b) = f a b
both nothing f _ _ = nothing

abbrev one : (ℤ → ℤ) → Milli → Milli
one f (some a) = some (f a)
one f none = none

abbrev whole : Milli → ℤ
whole (some a) = div_trunc a 1000
whole none = pos 0

abbrev is_number : Milli → Bool
is_number (some a) = true
is_number none = false

abbrev written : Milli → String
written none = "nan"
written (some z) = show_int z

abbrev read_milli : Option ℤ → Option Milli
read_milli none = none
read_milli (some z) = some (some z)

instance abbrev pub milli : Double Milli
milli = record {
  nan = none;
  lit = λ m e. some (pos (m * 1000 / 10 ^ e));
  of_int = λ z. some (z *ℤ pos 1000);
  to_int = whole;
  to_float = λ x. x;
  is_finite = is_number;
  lt = both false ltb_ℤ;
  le = both false (λ a b. not (ltb_ℤ b a));
  eq = both false (λ a b. not (ltb_ℤ a b) && not (ltb_ℤ b a));
  add = both none (λ a b. some (a +ℤ b));
  sub = both none (λ a b. some (a -ℤ b));
  mul = both none (λ a b. some (div_trunc (a *ℤ b) 1000));
  div = both none (λ a b. some (div_trunc (a *ℤ pos 1000) (pos_part b)));
  neg = one (λ a. pos 0 -ℤ a);
  abs = one (λ a. pos (magnitude a));
  sqrt = λ x. x;
  exp = λ x. x;
  sin = λ x. some (pos 0);
  cos = λ x. some (pos 1000);
  fmod = λ x y. x;
  max_float = some (pos 1_000_000_000);
  to_string = written;
  stod = λ s. if has_letter s then some none else read_milli (read_int s);
}

pub milli_nan : HasNan milli
milli_nan = record { is_finite-nan = refl }

abbrev pub metres : ℕ → Milli
metres n = some (pos (n * 1000))

pub data Phase : Type 0 where
  idle searching found ended : Phase

abbrev phase_active : Phase → Bool
phase_active Phase.searching = true
phase_active Phase.found = true
phase_active _ = false

abbrev phase_ended : Phase → Bool
phase_ended Phase.ended = true
phase_ended _ = false

abbrev phase_found : Phase → Bool
phase_found Phase.found = true
phase_found _ = false

abbrev phase_update : Bool → MapperState → Phase → Phase
phase_update true MapperState.can_land Phase.searching = Phase.found
phase_update _ _ p = p

abbrev phase_abort : Phase → Phase
phase_abort Phase.found = Phase.searching
phase_abort p = p

instance abbrev pub phases : LandingPlanner Milli Phase
phases = record {
  is_active = phase_active;
  is_ended = phase_ended;
  should_land = phase_found;
  start_search = λ x y yaw altitude c p. Phase.searching;
  end_search = λ p. Phase.ended;
  reset = λ p. Phase.idle;
  abort_landing = λ altitude height p. phase_abort p;
  update_search = λ site x y altitude height still s p. phase_update still s p;
  waypoint_updated = λ p. (false, p);
  get_current_waypoint = λ p. (metres 5, metres 5);
  get_search_altitude = λ p. metres 6;
}

abort_live : (p : Phase) → phase_active p ≡ true → phase_active (phase_abort p) ≡ true
abort_live Phase.searching h = refl
abort_live Phase.found h = refl
abort_live Phase.idle h = h
abort_live Phase.ended h = h

update_live :
    (still : Bool) (s : MapperState) (p : Phase)
    → phase_active p ≡ true
    → phase_active (phase_update still s p) ≡ true
update_live true MapperState.can_land Phase.searching h = refl
update_live _ _ _ h = h

pub phases_live : IsLandingPlanner phases
phases_live = record {
  is_active-end_search = λ p. refl;
  is_ended-end_search = λ p. refl;
  is_active-reset = λ p. refl;
  abort_landing_live = λ altitude height p h. inl (abort_live p h);
  update_search_live = λ site x y altitude height still s p h. inl (update_live still s p h);
  is_active-waypoint_updated = λ p. refl;
  is_ended-waypoint_updated = λ p. refl;
}

-- A configuration with both decision makers enabled.
abbrev pub configuration : String → String → Configuration Milli
configuration input action = record {
  autopilot_manager_enabled = true;
  decision_maker_input_type = input;
  script_to_call = "";
  api_call = "";
  local_position_offset_x = metres 5;
  local_position_offset_y = metres 0;
  local_position_offset_z = metres 0;
  local_position_waypoint_x = metres 0;
  local_position_waypoint_y = metres 0;
  local_position_waypoint_z = metres 0;
  global_position_offset_lat = metres 0;
  global_position_offset_lon = metres 0;
  global_position_offset_alt_amsl = metres 0;
  global_position_waypoint_lat = metres 47;
  global_position_waypoint_lon = metres 8;
  global_position_waypoint_alt_amsl = metres 425;
  safe_landing_enabled = true;
  safe_landing_distance_to_ground = metres 6;
  safe_landing_on_no_safe_land = action;
  safe_landing_try_landing_after_action = true;
  landing_site_search_speed = metres 1;
  landing_site_search_max_distance = metres 10;
  landing_site_search_min_height = metres 4;
  landing_site_search_min_distance_after_abort = metres 3;
  landing_site_search_arrival_radius = metres 1;
  landing_site_search_assess_time = metres 1;
  landing_site_search_strategy = "SPIRAL_SEARCH";
  landing_site_search_spiral_spacing = metres 4;
  landing_site_search_spiral_points = pos 16;
  simple_collision_avoid_enabled = true;
  simple_collision_avoid_distance_threshold = metres 5;
  simple_collision_avoid_action_on_condition_true = action;
}

-- In flight 10 m above the configured waypoint, with a search in the given phase.
abbrev pub in_flight : FlightMode → LandedState → Phase → Configuration Milli → Mission Milli Phase
in_flight mode landed phase c = record {
  config = c;
  telemetry = record {
    flight_mode = mode;
    landed_state = landed;
    previous_landed_state = LandedState.in_air;
    is_global_position_ok = true;
    is_home_position_ok = true;
    current_latitude = metres 47;
    current_longitude = metres 8;
    current_altitude_amsl = metres 425;
    current_pos_x = metres 0;
    current_pos_y = metres 0;
    current_pos_z = some (negsuc 9999);
    current_vel_x = metres 0;
    current_vel_y = metres 0;
    current_vel_z = metres 0;
    current_yaw = metres 0;
  };
  oa_enabled = true;
  action_in_progress = false;
  global_origin_reference_set = true;
  ref_latitude = metres 47;
  ref_longitude = metres 8;
  ref_altitude = metres 0;
  landing_speed = metres 2;
  landing_crawl_speed = metres 1;
  landing_crawl_altitude = metres 1;
  is_stationary_debounce_counter = 0;
  new_latitude = none;
  new_longitude = none;
  new_altitude_amsl = none;
  new_x = none;
  new_y = none;
  new_yaw = none;
  previously_set_waypoint_altitude_amsl = metres 0;
  landing_planner = phase;
  last_time = 0;
  time_last_traj = 0;
  is_healthy = true;
  velocity = none;
  log = [];
}

-- One round's inputs at a time in nanoseconds.
abbrev pub inputs : ℕ → MapperState → Configuration Milli → Inputs Milli
inputs now s c = record {
  config_update = c;
  system_now = now;
  ros_now = now;
  landing_state = s;
  height_above_obstacle = metres 3;
  landing_state_at = λ x y. s;
  distance_to_obstacle = metres 2;
  distance_to_obstacle_again = metres 2;
  get_param_float = λ name. none;
  global_from_local = λ origin p. p;
}
