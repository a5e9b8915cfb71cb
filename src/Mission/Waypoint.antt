-- ===== src/Mission/Waypoint.antt =====
-- src/modules/mission_manager/MissionManager.cpp: local offsets, the waypoint overrides, the debounced
-- test for standing still, and what the flight mode says.
use autopilot_manager.Common.{ℕ, ◌+◌, Bool, true, false, ◌&&◌, ◌||◌, Double, leb, if◌then◌else◌}
use autopilot_manager.Types.{FlightMode, LandedState, mode_eq, landed_eq}
use autopilot_manager.Mission.State.{Telemetry, Mission, Inputs}

unfoldable pub under_manual_control : FlightMode → Bool
under_manual_control FlightMode.manual = true
under_manual_control FlightMode.altctl = true
under_manual_control FlightMode.posctl = true
under_manual_control FlightMode.acro = true
under_manual_control FlightMode.stabilized = true
under_manual_control FlightMode.rattitude = true
under_manual_control _ = false

unfoldable pub landing_triggered : FlightMode → LandedState → Bool
landing_triggered mode landed =
    let manual_triggered_land = mode_eq mode FlightMode.land in
    let mission_land = mode_eq mode FlightMode.mission && landed_eq landed LandedState.landing in
    manual_triggered_land || mission_land

abbrev pub debounce_count_required : ℕ
debounce_count_required = 10

-- The counter after the call, and the result.
unfoldable pub debounce_is_stationary : Bool → ℕ → ℕ × Bool
debounce_is_stationary true counter =
    if leb debounce_count_required (counter + 1) then (0, true) else (counter + 1, false)
debounce_is_stationary false counter = (0, false)

module _ {W : Type 0} ⦃d : Double W⦄ where
  open d use {add, sub, mul, sin, cos}

  -- An offset in the body frame, as a local position.
  unfoldable pub get_local_position_from_local_offset : W → W → Telemetry W → W × W
  get_local_position_from_local_offset x y t = (
    add (sub (mul (cos t.current_yaw) x) (mul (sin t.current_yaw) y)) t.current_pos_x,
    add (add (mul (sin t.current_yaw) x) (mul (cos t.current_yaw) y)) t.current_pos_y,
  )

module _ {W P : Type 0} ⦃d : Double W⦄ where
  open d use {lit, to_float, le, lt, add, sub, mul, abs, sqrt}

  unfoldable pub is_stationary : Mission W P → Mission W P × Bool
  unfolding debounce_is_stationary
  is_stationary m =
      let t = m.telemetry in
      let vel_mag = sqrt (
        add (add (mul t.current_vel_x t.current_vel_x) (mul t.current_vel_y t.current_vel_y))
          (mul t.current_vel_z t.current_vel_z)) in
      let (counter, still) =
        debounce_is_stationary (lt vel_mag (lit 5 1)) m.is_stationary_debounce_counter in
      (record m { is_stationary_debounce_counter = counter }, still)

  unfoldable pub set_new_waypoint : W → W → W → Mission W P → Mission W P
  set_new_waypoint lat lon alt_amsl m = record m {
    new_latitude = lat;
    new_longitude = lon;
    new_altitude_amsl = alt_amsl;
  }

  -- ~1 meter acceptance radius
  unfoldable pub arrived_to_new_waypoint : Mission W P → Bool
  arrived_to_new_waypoint m =
      let t = m.telemetry in
      le (abs (sub m.new_latitude t.current_latitude)) (lit 1 5)
      && le (abs (sub m.new_longitude t.current_longitude)) (lit 1 5)
      && le (abs (sub m.new_altitude_amsl t.current_altitude_amsl)) (lit 1 0)

  -- `_new_yaw` is a `float`, the other two are `double`s.
  unfoldable pub set_new_local_waypoint : W → W → W → Mission W P → Mission W P
  set_new_local_waypoint x y yaw m = record m { new_x = x; new_y = y; new_yaw = to_float yaw }

  unfoldable pub go_to_new_local_waypoint : W × W → Mission W P → Mission W P
  unfolding set_new_local_waypoint
  go_to_new_local_waypoint (north, east) m =
      set_new_local_waypoint north east m.telemetry.current_yaw m

  unfoldable pub get_global_position_from_local_position : Inputs W → W × W → Mission W P → W × W
  get_global_position_from_local_position i local m =
      i.global_from_local (m.ref_latitude, m.ref_longitude) local

  unfoldable pub get_global_position_from_local_offset : Inputs W → W → W → Mission W P → W × W
  unfolding get_local_position_from_local_offset get_global_position_from_local_position
  get_global_position_from_local_offset i x y m =
      get_global_position_from_local_position i
        (get_local_position_from_local_offset x y m.telemetry) m
