-- ===== src/Mission/Ending.antt =====
-- How a landing site search is ended from outside (src/modules/mission_manager/MissionManager.cpp,
-- `handle_safe_landing` and `flight_mode_callback`).
use autopilot_manager.Common.{
  ◌≡◌, ◌⊎◌, Bool, true, false, ◌||◌, ◌∷◌, Double, HasNan, arith, if◌then◌else◌,
}
use autopilot_manager.Types.{FlightMode, LandedState, landed_eq, mode_eq}
use autopilot_manager.Mission.State.{
  LandingPlanner, IsLandingPlanner, Command, Telemetry, Mission, Inputs,
}
use autopilot_manager.Mission.Waypoint.{under_manual_control}
use autopilot_manager.Mission.SafeLanding.{
  update_obstacle_avoidance_status, process_search, handle_safe_landing,
}
use autopilot_manager.Mission.Callbacks.{flight_mode_callback}
use autopilot_manager.Mission.Orders.{orders}

-- The causes that end a search besides the loss of obstacle avoidance.
abbrev pub has_other_cause : {W : Type 0} → Telemetry W → Bool
has_other_cause t =
    (landed_eq t.landed_state LandedState.on_ground
      || landed_eq t.landed_state LandedState.taking_off)
    || under_manual_control t.flight_mode
    || mode_eq t.flight_mode FlightMode.return_to_launch

module _ {W P : Type 0} ⦃d : Double W⦄ ⦃lp : LandingPlanner W P⦄ where
  module _ (nan : HasNan d) (laws : IsLandingPlanner lp) where
    -- Taking manual control in a new flight mode leaves no search active and gives the vehicle no
    -- order; if a search was active, its waypoint is unset.
    pub manual_mode_ends_search :
        (mode : FlightMode) (m : Mission W P)
        → under_manual_control mode ≡ true
        → mode_eq mode m.telemetry.flight_mode ≡ false
        → let n = flight_mode_callback mode m in
          (lp.is_active n.landing_planner ≡ false)
          × (orders n.log ≡ orders m.log)
          × ((lp.is_active m.landing_planner ≡ false) ⊎ (d.is_finite n.new_x ≡ false))
    unfolding flight_mode_callback
    manual_mode_ends_search mode m h new = ground (
      arith,
      nan.is_finite-nan,
      laws.is_active-reset m.landing_planner,
      laws.is_active-reset (lp.end_search m.landing_planner),
    )

    -- With safe landing switched off, or without a trajectory message in the last half second, a round
    -- of the safe landing handler leaves no search active; the only order it can give is to hold, and
    -- it gives that one if, and only if, a search was active.
    pub disabled_ends_search :
        (i : Inputs W) (m : Mission W P)
        → (m.config.safe_landing_enabled ≡ false)
          ⊎ ((update_obstacle_avoidance_status i.ros_now m).oa_enabled ≡ false)
        → let active = lp.is_active m.landing_planner in
          let n = handle_safe_landing i m in
          (lp.is_active n.landing_planner ≡ false)
          × (orders n.log ≡ (if active then Command.hold ∷ orders m.log else orders m.log))
          × ((if active then d.is_finite n.new_x else false) ≡ false)
    unfolding handle_safe_landing
    disabled_ends_search i m h =
        ground (arith, nan.is_finite-nan, laws.is_active-end_search m.landing_planner)

    -- An active search is ended on the ground, at take-off, under manual control, on a return to
    -- launch and when obstacle avoidance is lost. Its waypoint is then unset, and the vehicle is told
    -- to hold only when the loss of obstacle avoidance is the one cause.
    pub process_search_ends :
        (i : Inputs W) (m : Mission W P)
        → (has_other_cause m.telemetry ≡ true) ⊎ (m.oa_enabled ≡ false)
        → let n = process_search i m in
          (lp.is_ended n.landing_planner ≡ true)
          × (lp.is_active n.landing_planner ≡ false)
          × (d.is_finite n.new_x ≡ false)
          × (orders n.log
              ≡ (if has_other_cause m.telemetry then orders m.log else Command.hold ∷ orders m.log))
    unfolding process_search
    process_search_ends i m h = ground (
      arith,
      nan.is_finite-nan,
      laws.is_active-end_search m.landing_planner,
      laws.is_ended-end_search m.landing_planner,
    )
