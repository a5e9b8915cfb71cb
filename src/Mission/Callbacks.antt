-- ===== src/Mission/Callbacks.antt =====
-- src/modules/mission_manager/MissionManager.cpp: the telemetry subscriptions of `decision_maker_run`,
-- `flight_mode_callback`, and one round of `set_global_position_reference`.
use autopilot_manager.Common.{Bool, true, ◌&&◌, ◌||◌, not, [], ◌∷◌, Double, if◌then◌else◌}
use autopilot_manager.Types.{FlightMode, LandedState, StatusTextType, mode_eq, landed_eq}
use autopilot_manager.Mission.State.{LandingPlanner, Command, Mission, command}
use autopilot_manager.Mission.Waypoint.{under_manual_control}
use autopilot_manager.Mission.Search.{mission_manager_out, landing_site_search_has_ended}

-- The messages of the subscriptions, and the answer to `get_gps_global_origin`.
pub record Position (W : Type 0) : Type 0 where
  pub latitude_deg : W
  pub longitude_deg : W
  pub absolute_altitude_m : W

pub record PositionVelocityNed (W : Type 0) : Type 0 where
  pub north_m : W
  pub east_m : W
  pub down_m : W
  pub north_m_s : W
  pub east_m_s : W
  pub down_m_s : W

pub data GpsGlobalOrigin (W : Type 0) : Type 0 where
  success : W → W → W → GpsGlobalOrigin W
  timeout failure : GpsGlobalOrigin W

module _ {W P : Type 0} where
  unfoldable pub on_position : Position W → Mission W P → Mission W P
  on_position position m = record m {
    telemetry = record (m.telemetry) {
      current_latitude = position.latitude_deg;
      current_longitude = position.longitude_deg;
      current_altitude_amsl = position.absolute_altitude_m;
    };
  }

  unfoldable pub on_health : Bool → Bool → Mission W P → Mission W P
  on_health global home m = record m {
    telemetry = record (m.telemetry) { is_global_position_ok = global; is_home_position_ok = home };
  }

  unfoldable pub on_position_velocity_ned : PositionVelocityNed W → Mission W P → Mission W P
  on_position_velocity_ned p m = record m {
    telemetry = record (m.telemetry) {
      current_pos_x = p.north_m;
      current_pos_y = p.east_m;
      current_pos_z = p.down_m;
      current_vel_x = p.north_m_s;
      current_vel_y = p.east_m_s;
      current_vel_z = p.down_m_s;
    };
  }

  unfoldable pub on_landed_state : LandedState → Mission W P → Mission W P
  on_landed_state landed m = if landed_eq landed m.telemetry.landed_state then m else record m {
    telemetry = record (m.telemetry) {
      previous_landed_state = m.telemetry.landed_state;
      landed_state = landed;
    };
  }

module _ {W P : Type 0} ⦃d : Double W⦄ where
  open d use {lit, eq, mul, div, to_string}

  unfoldable pub on_attitude_euler : W → Mission W P → Mission W P
  on_attitude_euler yaw_deg m = record m {
    telemetry = record (m.telemetry) {
      current_yaw = div (mul yaw_deg (lit 314_159_265_358_979_323_846 20)) (lit 180 0);
    };
  }

  -- One round of the loop; only the first and each changed origin is stored and reported.
  unfoldable pub set_global_position_reference : GpsGlobalOrigin W → Mission W P → Mission W P
  set_global_position_reference (GpsGlobalOrigin.success lat lon alt) m =
      let lat_valid = not (eq lat (lit 0 0)) in
      let lon_valid = not (eq lon (lit 0 0)) in
      let ori_changed =
        not (eq m.ref_latitude lat)
        || not (eq m.ref_longitude lon)
        || not (eq m.ref_altitude alt) in
      if lat_valid && lon_valid && ori_changed
      then command
          (Command.status_text StatusTextType.info (
            mission_manager_out
            ∷ "Global position reference set: Latitude: "
            ∷ to_string lat
            ∷ " deg | Longitude: "
            ∷ to_string lon
            ∷ " deg | Altitude (AMSL): "
            ∷ to_string alt
            ∷ " meters"
            ∷ []))
          (record m {
            ref_latitude = lat;
            ref_longitude = lon;
            ref_altitude = alt;
            global_origin_reference_set = true;
          })
      else m
  set_global_position_reference _ m = m

module _ {W P : Type 0} ⦃d : Double W⦄ ⦃lp : LandingPlanner W P⦄ where
  open lp use {is_active, end_search, reset}

  abbrev pub end_for_mode_change : Mission W P → Mission W P
  end_for_mode_change m =
      if is_active m.landing_planner
      then landing_site_search_has_ended "MODE"
          (record m { landing_planner = end_search m.landing_planner })
      else m

  -- "Reset safe landing on new flights or when in manual control"
  unfoldable pub flight_mode_callback : FlightMode → Mission W P → Mission W P
  unfolding under_manual_control landing_site_search_has_ended
  flight_mode_callback mode m0 =
      let m = record m0 { telemetry = record (m0.telemetry) { flight_mode = mode } } in
      let landed = m.telemetry.landed_state in
      let is_taking_off =
        landed_eq landed LandedState.on_ground || landed_eq landed LandedState.taking_off in
      let expecting_auto_takeoff =
        mode_eq mode FlightMode.mission || mode_eq mode FlightMode.takeoff in
      let ended = end_for_mode_change m in
      if mode_eq mode m0.telemetry.flight_mode
      then m0
      else if (is_taking_off && expecting_auto_takeoff) || under_manual_control mode
      then record ended { landing_planner = reset ended.landing_planner }
      else m
