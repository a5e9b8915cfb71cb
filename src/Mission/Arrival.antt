-- ===== src/Mission/Arrival.antt =====
-- What the safe landing handler does once it has chosen an action: a waypoint of its own, or a search
-- (src/modules/mission_manager/MissionManager.cpp).
use autopilot_manager.Common.{
  ◌≡◌, ◌⊎◌, refl, Bool, true, false, ◌∷◌, not, ◌&&◌, Double, HasNan, arith, if◌then◌else◌,
}
use autopilot_manager.Mission.State.{LandingPlanner, IsLandingPlanner, Command, Mission, Inputs}
use autopilot_manager.Types.{LandedState, landed_eq}
use autopilot_manager.Mission.Waypoint.{set_new_waypoint, arrived_to_new_waypoint}
use autopilot_manager.Mission.Search.{decide_search, command_search, update_landing_site_search}
use autopilot_manager.Mission.Trigger.{is_at_waypoint, go_to_waypoint}
use autopilot_manager.Mission.SafeLanding.{
  process_waypoint, landed_at_waypoint, process_waypoint-elim, process_active_actions,
}
use autopilot_manager.Mission.Loop.{Reach}
use autopilot_manager.Mission.Invariant.{Inv, Reach-Inv}
use autopilot_manager.Mission.Orders.{orders}

module _ {W P : Type 0} ⦃d : Double W⦄ ⦃lp : LandingPlanner W P⦄ where
  -- The order to land is due.
  abbrev pub lands : Mission W P → Bool
  lands m =
      not
        (lp.is_ended m.landing_planner && landed_eq m.telemetry.landed_state LandedState.taking_off)
      && (d.is_finite m.new_latitude
          && d.is_finite m.new_longitude
          && d.is_finite m.new_altitude_amsl)
      && (arrived_to_new_waypoint m && m.config.safe_landing_try_landing_after_action)

  module _ (nan : HasNan d) where
    without_search :
        (i : Inputs W) (m : Mission W P)
        → lp.is_active m.landing_planner ≡ false
        → process_active_actions i m ≡ process_waypoint m
    unfolding process_active_actions
    without_search i m h = simp h

    no_waypoint :
        (m : Mission W P)
        → d.is_finite m.new_latitude ≡ false
        → d.is_finite m.new_latitude ≡ true
        → ⊥
    no_waypoint m f e = ground arith

    without_waypoint :
        (i : Inputs W) (m : Mission W P)
        → lp.is_active m.landing_planner ≡ false
        → d.is_finite m.new_latitude ≡ false
        → (process_active_actions i m).log ≡ m.log
    without_waypoint i m h f =
        rw (without_search i m h)
          (process_waypoint-elim (λ n. n.log ≡ m.log) m refl (λ e. absurd (no_waypoint m f e)) refl)

    -- With no search active, processing the actions gives one order to land exactly where the planner has
    -- no ended search to reset, a waypoint is set, the vehicle is within the acceptance radius of it, and
    -- the configuration asks for a landing after the action; otherwise it sends nothing. After the order
    -- the three coordinates of the waypoint are not numbers, and processing again, whatever the inputs are
    -- then, sends nothing.
    pub lands_once :
        (i j : Inputs W) (m : Mission W P)
        → lp.is_active m.landing_planner ≡ false
        → let n = process_active_actions i m in
          ((lands m ≡ false) × (n.log ≡ m.log))
          ⊎ ((lands m ≡ true)
              × (n.log ≡ Command.land ∷ m.log)
              × (d.is_finite n.new_latitude ≡ false)
              × (d.is_finite n.new_longitude ≡ false)
              × (d.is_finite n.new_altitude_amsl ≡ false)
              × ((process_active_actions j n).log ≡ n.log))
    unfolding set_new_waypoint
    lands_once i j m h =
        let quiet = without_waypoint j (landed_at_waypoint m) h nan.is_finite-nan in
        rw (without_search i m h) (ground (arith, quiet, nan.is_finite-nan))

  module _ (nan : HasNan d) (laws : IsLandingPlanner lp) where
    search_decides :
        (i : Inputs W) (m : Mission W P) → orders (decide_search i m).0.log ≡ orders m.log
    unfolding decide_search
    search_decides i m = ground arith

    command_search-orders :
        (land found : Bool) (m : Mission W P)
        → let n = command_search land found m in
          (orders n.log ≡ orders m.log)
          ⊎ ((orders n.log ≡ Command.hold ∷ orders m.log)
              × (lp.is_ended n.landing_planner ≡ true)
              × (d.is_finite n.new_x ≡ false))
    unfolding command_search
    command_search-orders land true m =
        ground (arith, nan.is_finite-nan, laws.is_ended-end_search m.landing_planner)
    command_search-orders land false m =
        ground (arith, nan.is_finite-nan, laws.is_ended-waypoint_updated m.landing_planner)

    -- A round of the landing site search gives the vehicle no order, or one to hold; and it gives that
    -- one only when the search is over and its waypoint is unset.
    pub search_only_holds :
        (i : Inputs W) (land_when_found_site : Bool) (m : Mission W P)
        → let n = update_landing_site_search i land_when_found_site m in
          (orders n.log ≡ orders m.log)
          ⊎ ((orders n.log ≡ Command.hold ∷ orders m.log)
              × (lp.is_ended n.landing_planner ≡ true)
              × (d.is_finite n.new_x ≡ false))
    unfolding update_landing_site_search
    search_only_holds i land m = ground (
      arith,
      search_decides i m,
      command_search-orders land (decide_search i m).1 (decide_search i m).0,
    )

    -- The altitude of the previous waypoint is never recorded: whatever happened before, at an altitude
    -- that is not within a metre of 0 the vehicle is sent to the configured waypoint, or holds without
    -- a global reference, even where it already stands at that waypoint.
    pub go_to_waypoint_again :
        {m n : Mission W P}
        → Inv m
        → Reach m n
        → d.le (d.abs (d.sub (d.lit 0 0) n.telemetry.current_altitude_amsl)) (d.lit 1 0) ≡ false
        → let c = n.config in
          orders (go_to_waypoint n).log
          ≡ (if n.global_origin_reference_set
              then Command.goto_location c.global_position_waypoint_lat
                  c.global_position_waypoint_lon c.global_position_waypoint_alt_amsl d.nan
              else Command.hold)
            ∷ orders n.log
    unfolding go_to_waypoint is_at_waypoint
    go_to_waypoint_again h r far = ground (arith, (Reach-Inv nan laws h r).previous_altitude)
