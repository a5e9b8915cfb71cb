-- ===== src/Mission/Invariant/Search.antt =====
-- What holds of the mission manager between any two steps of its threads, along the search for a landing
-- site (src/modules/mission_manager/MissionManager.cpp).
use autopilot_manager.Common.{◌<◌, ◌≡◌, ◌⊎◌, Bool, true, false, Double, HasNan, arith, if_elim_eq}
use autopilot_manager.Mission.State.{
  LandingPlanner, IsLandingPlanner, Command, Mission, Inputs, command,
}
use autopilot_manager.Mission.Waypoint.{is_stationary, set_new_waypoint}
use autopilot_manager.Mission.Search.{decide_search, command_search, update_landing_site_search}
use autopilot_manager.Mission.Trigger.{start_landing_site_search}
use autopilot_manager.Mission.SafeLanding.{
  landed_at_waypoint, process_waypoint-elim, process_search, process_active_actions, disable_search,
}

module _ {W P : Type 0} ⦃d : Double W⦄ ⦃lp : LandingPlanner W P⦄ where
  -- The override of the waypoint is only set while a search is active, the counter of the debounce
  -- stays below the count that it waits for, and the altitude of the previous waypoint is its initial
  -- 0.
  pub record Inv (m : Mission W P) : Type 0 where
    pub waypoint_of_search : lp.is_active m.landing_planner ≡ false → d.is_finite m.new_x ≡ false
    pub counter_below : m.is_stationary_debounce_counter < 10
    pub previous_altitude : m.previously_set_waypoint_altitude_amsl ≡ d.lit 0 0

  pub command-Inv : (c : Command W) (m : Mission W P) → Inv m → Inv (command c m)
  command-Inv c m h = record {
    waypoint_of_search = h.waypoint_of_search;
    counter_below = h.counter_below;
    previous_altitude = h.previous_altitude;
  }

  module _ (nan : HasNan d) (laws : IsLandingPlanner lp) where
    -- A search under way, or one that has just ended.
    abbrev Live : Mission W P → Type 0
    Live m =
        (m.is_stationary_debounce_counter < 10)
        × (m.previously_set_waypoint_altitude_amsl ≡ d.lit 0 0)
        × ((lp.is_active m.landing_planner ≡ true) ⊎ (lp.is_ended m.landing_planner ≡ true))

    decide_search-Live :
        (i : Inputs W) (m : Mission W P)
        → Inv m
        → lp.is_active m.landing_planner ≡ true
        → Live (decide_search i m).0
    unfolding decide_search
    decide_search-Live i m h a =
        let t = m.telemetry in
        let altitude = d.neg t.current_pos_z in
        let p = m.landing_planner in
        let still = (is_stationary m).1 in
        ground (
          arith,
          laws.abort_landing_live altitude i.height_above_obstacle p,
          laws.update_search_live i.landing_state_at t.current_pos_x t.current_pos_y altitude
              i.height_above_obstacle still i.landing_state p,
        )

    command_search-Inv :
        (land_when_found_site found : Bool) (m : Mission W P)
        → Live m
        → Inv (command_search land_when_found_site found m)
    unfolding command_search
    command_search-Inv land true m h =
        ground (arith, nan.is_finite-nan, laws.is_ended-end_search m.landing_planner)
    command_search-Inv land false m h = ground (
      arith,
      nan.is_finite-nan,
      laws.is_active-waypoint_updated m.landing_planner,
      laws.is_ended-waypoint_updated m.landing_planner,
    )

    update_landing_site_search-Inv :
        (i : Inputs W) (land : Bool) (m : Mission W P)
        → Inv m
        → lp.is_active m.landing_planner ≡ true
        → Inv (update_landing_site_search i land m)
    unfolding update_landing_site_search
    update_landing_site_search-Inv i land m h a =
        command_search-Inv land (decide_search i m).1 (decide_search i m).0
          (decide_search-Live i m h a)

    process_search-Inv :
        (i : Inputs W) (m : Mission W P)
        → Inv m
        → lp.is_active m.landing_planner ≡ true
        → Inv (process_search i m)
    unfolding process_search
    process_search-Inv i m h a = ground (
      arith,
      nan.is_finite-nan,
      update_landing_site_search-Inv i m.config.safe_landing_try_landing_after_action m h a,
    )

    searched-Inv :
        (i : Inputs W) (m : Mission W P) → Inv m → Inv (record m { last_time = i.system_now })
    searched-Inv i m h = record {
      waypoint_of_search = h.waypoint_of_search;
      counter_below = h.counter_below;
      previous_altitude = h.previous_altitude;
    }

    landed-Inv : (m : Mission W P) → Inv m → Inv (landed_at_waypoint m)
    unfolding set_new_waypoint
    landed-Inv m h = record {
      waypoint_of_search = h.waypoint_of_search;
      counter_below = h.counter_below;
      previous_altitude = h.previous_altitude;
    }

    pub process_active_actions-Inv :
        (i : Inputs W) (m : Mission W P) → Inv m → Inv (process_active_actions i m)
    unfolding process_active_actions
    process_active_actions-Inv i m h =
        if_elim_eq Inv (lp.is_active m.landing_planner)
          (λ a. searched-Inv i (process_search i m) (process_search-Inv i m h a))
          (λ off.
            process_waypoint-elim Inv m
              (record {
                waypoint_of_search = λ e. h.waypoint_of_search off;
                counter_below = h.counter_below;
                previous_altitude = h.previous_altitude;
              })
              (λ e. landed-Inv m h) h)

    pub disable_search-Inv : (m : Mission W P) → Inv m → Inv (disable_search m)
    unfolding disable_search
    disable_search-Inv m h = ground (arith, nan.is_finite-nan)

    pub start_landing_site_search-Inv :
        (i : Inputs W) (m : Mission W P) → Inv m → Inv (start_landing_site_search i m)
    unfolding start_landing_site_search
    start_landing_site_search-Inv i m h = ground (arith, nan.is_finite-nan)
