-- ===== src/Mission/Trigger.antt =====
-- src/modules/mission_manager/MissionManager.cpp: the part of `handle_safe_landing` that starts an
-- action when a landing has been triggered.
use autopilot_manager.Common.{
  String, true, ◌&&◌, ◌||◌, not, Bool, Option, none, some, [], ◌∷◌, Double, if◌then◌else◌, if_elim,
  if_elim_eq, ◌≡◌, str_eq,
}
use autopilot_manager.Types.{MapperState, StatusTextType, mapper_eq}
use autopilot_manager.Mission.State.{
  Configuration, LandingPlannerConfig, LandingPlanner, Command, Mission, Inputs, command,
}
use autopilot_manager.Mission.Waypoint.{
  get_global_position_from_local_offset, set_new_waypoint, go_to_new_local_waypoint,
  landing_triggered,
}
use autopilot_manager.Mission.Search.{mission_manager_out, status, landing_site_search_has_ended}

module _ {W : Type 0} ⦃d : Double W⦄ where
  open d use {to_float}

  unfoldable pub landing_planner_config : Configuration W → LandingPlannerConfig W
  landing_planner_config c = record {
    max_distance = c.landing_site_search_max_distance;
    min_height = c.landing_site_search_min_height;
    max_height = to_float c.safe_landing_distance_to_ground;
    min_distance_after_abort = c.landing_site_search_min_distance_after_abort;
    waypoint_arrival_radius = c.landing_site_search_arrival_radius;
    site_assess_time = c.landing_site_search_assess_time;
    search_strategy = c.landing_site_search_strategy;
    spiral_search_spacing = c.landing_site_search_spiral_spacing;
    spiral_search_points = c.landing_site_search_spiral_points;
  }

abbrev param_or {ℓ} : {A : Type ℓ} → Option A → A → A
param_or (some v) old = v
param_or none old = old

module _ {W P : Type 0} ⦃d : Double W⦄ ⦃lp : LandingPlanner W P⦄ where
  open d use {nan, lit, lt, le, add, sub, neg, abs, to_string}
  open lp use {is_active, start_search, get_current_waypoint}

  unfoldable pub update_landing_speed_config : Inputs W → Mission W P → Mission W P
  update_landing_speed_config i m = record m {
    landing_speed = param_or (i.get_param_float "MPC_LAND_SPEED") m.landing_speed;
    landing_crawl_speed = param_or (i.get_param_float "MPC_LAND_CRWL") m.landing_crawl_speed;
    landing_crawl_altitude = param_or (i.get_param_float "MPC_LAND_ALT3") m.landing_crawl_altitude;
  }

  -- safe_landing_on_no_safe_land == "MOVE_XYZ_WRT_CURRENT"
  unfoldable pub move_wrt_current : Inputs W → Mission W P → Mission W P
  unfolding get_global_position_from_local_offset set_new_waypoint
  move_wrt_current i m =
      let c = m.config in
      let wp =
        get_global_position_from_local_offset i c.local_position_offset_x c.local_position_offset_y
          m in
      let altitude = add m.telemetry.current_altitude_amsl c.local_position_offset_z in
      if m.global_origin_reference_set
      then command
          (Command.status_text StatusTextType.info (
            mission_manager_out
            ∷ "Moving XYZ WRT to current vehicle position triggered for Safe Landing. Heading to "
            ∷ "determined "
            ∷ "Latitude "
            ∷ to_string wp.0
            ∷ " deg, Longitude "
            ∷ to_string wp.1
            ∷ " deg, Altitude (AMSL) "
            ∷ to_string altitude
            ∷ " meters"
            ∷ []))
          (set_new_waypoint wp.0 wp.1 altitude
            (command (Command.goto_location wp.0 wp.1 altitude nan) m))
      else status StatusTextType.warning "Holding position..." (command Command.hold m)

  -- safe_landing_on_no_safe_land == "LANDING_SITE_SEARCH"
  unfoldable pub start_landing_site_search : Inputs W → Mission W P → Mission W P
  unfolding update_landing_speed_config landing_planner_config go_to_new_local_waypoint
      landing_site_search_has_ended
  start_landing_site_search i m =
      let t = m.telemetry in
      let m1 = update_landing_speed_config i (
        command (Command.status_text StatusTextType.warning ("Starting Landing Site Search" ∷ []))
          m) in
      let p =
        start_search t.current_pos_x t.current_pos_y t.current_yaw (neg t.current_pos_z)
          (landing_planner_config m.config) m.landing_planner in
      let m2 = record m1 { landing_planner = p } in
      if m.global_origin_reference_set && m.oa_enabled
      then (if is_active p
          then go_to_new_local_waypoint (get_current_waypoint p) m2
          else status StatusTextType.warning "Landing planner could not start. Holding position..."
              (landing_site_search_has_ended "NSC" (command Command.hold m2)))
      else if not m.global_origin_reference_set
      then status StatusTextType.error "Global position reference not set. Holding position..."
          (landing_site_search_has_ended "No GO" (command Command.hold m))
      else if not m.oa_enabled
      then status StatusTextType.error
          "Landing planner could not start. No OA active in PX4. Holding position..."
          (landing_site_search_has_ended "No OA" (command Command.hold m))
      else m

  -- Whether "the previous waypoint will match the current waypoint", as the code tests it.
  unfoldable pub is_at_waypoint : Mission W P → Bool
  is_at_waypoint m =
      let c = m.config in
      let t = m.telemetry in
      le (abs (sub c.global_position_waypoint_lat t.current_latitude)) (lit 1 5)
      && le (abs (sub c.global_position_waypoint_lon t.current_longitude)) (lit 1 5)
      && le (abs (sub m.previously_set_waypoint_altitude_amsl t.current_altitude_amsl)) (lit 1 0)

  -- safe_landing_on_no_safe_land == "GO_TO_WAYPOINT"
  unfoldable pub go_to_waypoint : Mission W P → Mission W P
  unfolding set_new_waypoint
  go_to_waypoint m =
      let c = m.config in
      let lat = c.global_position_waypoint_lat in
      let lon = c.global_position_waypoint_lon in
      let alt = c.global_position_waypoint_alt_amsl in
      if is_at_waypoint m
      then command
          (Command.status_text StatusTextType.warning (
            mission_manager_out
            ∷ "Go-To Global Position Waypoint not triggered for Safe Landing, as the waypoint set "
            ∷ "is the same as the " ∷ "global position of the vehicle." ∷ "RTL triggered instead..."
            ∷ []))
          (command Command.return_to_launch m)
      else if m.global_origin_reference_set
      then command
          (Command.status_text StatusTextType.info (
            mission_manager_out
            ∷ "Go-To Global Position Waypoint triggered for Safe Landing. Heading to Latitude "
            ∷ to_string lat
            ∷ " deg, Longitude "
            ∷ to_string lon
            ∷ " deg, Altitude (AMSL) "
            ∷ to_string alt
            ∷ " meters"
            ∷ []))
          (set_new_waypoint lat lon alt (command (Command.goto_location lat lon alt nan) m))
      else status StatusTextType.warning "Holding position..." (command Command.hold m)

  -- The four settings that the code answers by holding the position.
  abbrev not_supported : String → Mission W P → Mission W P
  not_supported action m =
      command
        (Command.status_text StatusTextType.warning (
          mission_manager_out ∷ action
          ∷ " action currently not supported for Safe Landing. Holding position..." ∷ []))
        (command Command.hold m)

  -- The chain of tests on `safe_landing_on_no_safe_land`.
  unfoldable pub act_on_no_safe_land : Inputs W → String → Mission W P → Mission W P
  act_on_no_safe_land i action m =
      if str_eq action "HOLD"
      then status StatusTextType.info "Position hold triggered for Safe Landing"
          (command Command.hold m)
      else if str_eq action "RTL"
      then status StatusTextType.info "RTL triggered for Safe Landing"
          (command Command.return_to_launch m)
      else if str_eq action "MOVE_XYZ_WRT_CURRENT"
      then move_wrt_current i m
      else if str_eq action "LANDING_SITE_SEARCH"
      then start_landing_site_search i m
      else if str_eq action "GO_TO_WAYPOINT_XYZ"
      then not_supported "GO_TO_WAYPOINT_XYZ" m
      else if str_eq action "MOVE_LLA_WRT_CURRENT"
      then not_supported "MOVE_LLA_WRT_CURRENT" m
      else if str_eq action "GO_TO_WAYPOINT"
      then go_to_waypoint m
      else if str_eq action "SCRIPT_CALL"
      then not_supported "SCRIPT_CALL" m
      else if str_eq action "API_CALL"
      then not_supported "API_CALL" m
      else m

  -- What holds after nothing, survives each command, and holds after the three actions that do more,
  -- holds after the chain.
  pub act_on_no_safe_land-elim {ℓ} :
      (Q : Mission W P → Type ℓ) (i : Inputs W) (action : String) (m : Mission W P)
      → ((c : Command W) (n : Mission W P) → Q n → Q (command c n))
      → Q (move_wrt_current i m)
      → (str_eq action "LANDING_SITE_SEARCH" ≡ true → Q (start_landing_site_search i m))
      → Q (go_to_waypoint m)
      → Q m
      → Q (act_on_no_safe_land i action m)
  unfolding act_on_no_safe_land
  act_on_no_safe_land-elim Q i action m sent move search go h =
      (if_elim Q (str_eq action "HOLD") (sent _ _ (sent _ _ h)) (
        if_elim Q (str_eq action "RTL") (sent _ _ (sent _ _ h)) (
          if_elim Q (str_eq action "MOVE_XYZ_WRT_CURRENT") move (
            if_elim_eq Q (str_eq action "LANDING_SITE_SEARCH") search (λ _.
              if_elim Q (str_eq action "GO_TO_WAYPOINT_XYZ") (sent _ _ (sent _ _ h)) (
                if_elim Q (str_eq action "MOVE_LLA_WRT_CURRENT") (sent _ _ (sent _ _ h)) (
                  if_elim Q (str_eq action "GO_TO_WAYPOINT") go (
                    if_elim Q (str_eq action "SCRIPT_CALL") (sent _ _ (sent _ _ h))
                      (if_elim Q (str_eq action "API_CALL") (sent _ _ (sent _ _ h)) h)))))))))

  abbrev pub mark_action : Inputs W → Mission W P → Mission W P
  mark_action i m = record m { action_in_progress = true; last_time = i.system_now }

  -- What to do when a landing has been triggered and no action is in progress, by the state of the
  -- mapper and whether the height above the obstacle is more than 1.5 m.
  unfoldable pub trigger_on : Inputs W → MapperState → Bool → Mission W P → Mission W P
  trigger_on i s above m =
      let cannot_land = mapper_eq s MapperState.can_not_land in
      let unhealthy_and_above_1_5m = mapper_eq s MapperState.unhealthy && above in
      let unknown_and_above_1_5m = mapper_eq s MapperState.unknown && above in
      let should_trigger_safe_landing = cannot_land || unknown_and_above_1_5m in
      if unhealthy_and_above_1_5m
      then mark_action i (
          status StatusTextType.warning "Safe landing system not healthy. Holding position..."
            (command Command.hold m))
      else if should_trigger_safe_landing
      then mark_action i (act_on_no_safe_land i m.config.safe_landing_on_no_safe_land m)
      else m

  unfoldable pub trigger_safe_landing : Inputs W → Mission W P → Mission W P
  unfolding trigger_on
  trigger_safe_landing i m = trigger_on i i.landing_state (lt (lit 15 1) i.height_above_obstacle) m

  -- The guard in front of it.
  unfoldable pub trigger_if_landing : Inputs W → Mission W P → Mission W P
  unfolding trigger_safe_landing landing_triggered
  trigger_if_landing i m =
      if not m.action_in_progress
        && landing_triggered m.telemetry.flight_mode m.telemetry.landed_state
      then trigger_safe_landing i m
      else m
