-- ===== src/Mission/Search.antt =====
-- src/modules/mission_manager/MissionManager.cpp: `update_landing_site_search` in its three steps, and
-- the end of a search.
use autopilot_manager.Common.{String, Bool, true, false, ◌||◌, [], ◌∷◌, Double, if◌then◌else◌}
use autopilot_manager.Types.{MapperState, StatusTextType, mapper_eq}
use autopilot_manager.Mission.State.{LandingPlanner, Command, Mission, Inputs, command}
use autopilot_manager.Mission.Waypoint.{
  is_stationary, set_new_local_waypoint, go_to_new_local_waypoint,
}

abbrev pub mission_manager_out : String
mission_manager_out = "[Mission Manager] "

module _ {W P : Type 0} ⦃d : Double W⦄ ⦃lp : LandingPlanner W P⦄ where
  open d use {nan, neg}
  open lp use {
    is_active, is_ended, should_land, end_search, abort_landing, update_search, waypoint_updated,
    get_current_waypoint,
  }

  abbrev pub status : StatusTextType → String → Mission W P → Mission W P
  status type text m = command (Command.status_text type (mission_manager_out ∷ text ∷ [])) m

  -- The override of the waypoint is unset. The debug information is never empty where this is called.
  unfoldable pub landing_site_search_has_ended : String → Mission W P → Mission W P
  unfolding set_new_local_waypoint
  landing_site_search_has_ended debug m =
      command
        (Command.status_text StatusTextType.info
          ("Landing Site Search has ended" ∷ " (" ∷ debug ∷ ")" ∷ []))
        (set_new_local_waypoint nan nan nan m)

  -- STEP 1: the second component is `should_initiate_landing`.
  unfoldable pub decide_search : Inputs W → Mission W P → Mission W P × Bool
  unfolding is_stationary
  decide_search i m =
      let s = i.landing_state in
      let problem =
        mapper_eq s MapperState.unhealthy
        || mapper_eq s MapperState.unknown
        || mapper_eq s MapperState.can_not_land in
      let altitude = neg m.telemetry.current_pos_z in
      let abort = record (status StatusTextType.info "Aborting landing at candidate site" m) {
        landing_planner = abort_landing altitude i.height_above_obstacle m.landing_planner;
      } in
      let (m', still) = is_stationary m in
      let p =
        update_search i.landing_state_at m.telemetry.current_pos_x m.telemetry.current_pos_y
          altitude i.height_above_obstacle still s m.landing_planner in
      if should_land m.landing_planner
      then (if problem then (abort, false) else (m, false))
      else (record m' { landing_planner = p }, should_land p)

  -- STEP 3
  unfoldable pub restore_after_search : Mission W P → Mission W P
  unfolding landing_site_search_has_ended
  restore_after_search m =
      if is_ended m.landing_planner then landing_site_search_has_ended "END" m else m

  -- STEP 2, and STEP 3 on each branch but the last, which returns.
  unfoldable pub command_search : Bool → Bool → Mission W P → Mission W P
  unfolding restore_after_search go_to_new_local_waypoint
  command_search land_when_found_site true m =
      let held = command Command.hold m in
      restore_after_search (
        if land_when_found_site
        then command
            (Command.status_text StatusTextType.info
              (mission_manager_out ∷ "Landing site found. " ∷ "Landing..." ∷ []))
            m
        else command
            (Command.status_text StatusTextType.info
              (mission_manager_out ∷ "Landing site found. " ∷ "Holding position..." ∷ []))
            (record held { landing_planner = end_search held.landing_planner }))
  command_search land_when_found_site false m =
      let (updated, p) = waypoint_updated m.landing_planner in
      let m' = record m { landing_planner = p } in
      if is_ended m.landing_planner
      then restore_after_search (
          status StatusTextType.info "End of landing site search. Holding position..."
            (command Command.hold m))
      else if updated
      then restore_after_search (go_to_new_local_waypoint (get_current_waypoint p) m')
      else m'

  unfoldable pub update_landing_site_search : Inputs W → Bool → Mission W P → Mission W P
  unfolding decide_search command_search
  update_landing_site_search i land_when_found_site m =
      let (m', should_initiate_landing) = decide_search i m in
      command_search land_when_found_site should_initiate_landing m'
