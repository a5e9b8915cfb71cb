-- ===== src/Mission/SafeLanding.antt =====
-- src/modules/mission_manager/MissionManager.cpp: `handle_safe_landing` as a whole, with the part that
-- processes an action under way, and the status of obstacle avoidance that it starts from.
use autopilot_manager.Common.{
  ℕ, ◌-◌, ◌&&◌, ◌||◌, not, ◌≡◌, Bool, true, if_elim, if_elim_eq, arith, [], ◌∷◌, Double, ltb,
  if◌then◌else◌,
}
use autopilot_manager.Types.{FlightMode, LandedState, StatusTextType, mode_eq, landed_eq}
use autopilot_manager.Mission.State.{LandingPlanner, Command, Mission, Inputs, command}
use autopilot_manager.Mission.Waypoint.{
  set_new_waypoint, arrived_to_new_waypoint, under_manual_control,
}
use autopilot_manager.Mission.Search.{landing_site_search_has_ended, update_landing_site_search}
use autopilot_manager.Mission.Trigger.{trigger_if_landing}

-- 0.5 s in nanoseconds.
abbrev pub trajectory_timeout : ℕ
trajectory_timeout = 500_000_000

and_left : (a b : Bool) → a && b ≡ true → a ≡ true
and_left a b e = ground arith

module _ {W P : Type 0} where
  -- `set_obstacle_avoidance_enabled` is only called on a change, and then with the value of the test.
  unfoldable pub update_obstacle_avoidance_status : ℕ → Mission W P → Mission W P
  update_obstacle_avoidance_status ros_now m = record m {
    oa_enabled = ltb (ros_now - m.time_last_traj) trajectory_timeout;
  }

module _ {W P : Type 0} ⦃d : Double W⦄ ⦃lp : LandingPlanner W P⦄ where
  open d use {nan, is_finite}
  open lp use {is_active, is_ended, end_search, reset}

  -- The search is ended on the ground, under manual control, on a return to launch, and without
  -- obstacle avoidance, where the vehicle is also told to hold; otherwise it goes on.
  unfoldable pub process_search : Inputs W → Mission W P → Mission W P
  unfolding under_manual_control landing_site_search_has_ended
  process_search i m =
      let t = m.telemetry in
      let on_ground =
        landed_eq t.landed_state LandedState.on_ground
        || landed_eq t.landed_state LandedState.taking_off in
      let manual_control = under_manual_control t.flight_mode in
      let rtl_active = mode_eq t.flight_mode FlightMode.return_to_launch in
      let avoidance_interface_not_active = not m.oa_enabled in
      let ended = record m { landing_planner = end_search m.landing_planner } in
      if on_ground || manual_control || rtl_active || avoidance_interface_not_active
      then (if on_ground
          then landing_site_search_has_ended "OG" ended
          else if manual_control
          then landing_site_search_has_ended "MAN" ended
          else if rtl_active
          then landing_site_search_has_ended "RTL" ended
          else landing_site_search_has_ended "No OA" (
              command
                (Command.status_text StatusTextType.error
                  ("OA not active on PX4. Cancelling safe landing and holding position." ∷ []))
                (command Command.hold ended)))
      else update_landing_site_search i m.config.safe_landing_try_landing_after_action m

  -- What is processed while no search is active.
  abbrev pub process_waypoint : Mission W P → Mission W P
  process_waypoint m =
      let arrived = arrived_to_new_waypoint m && m.config.safe_landing_try_landing_after_action in
      if is_ended m.landing_planner && landed_eq m.telemetry.landed_state LandedState.taking_off
      then record m { landing_planner = reset m.landing_planner }
      else if is_finite m.new_latitude && is_finite m.new_longitude && is_finite m.new_altitude_amsl
      then (if arrived then set_new_waypoint nan nan nan (command Command.land m) else m)
      else m

  abbrev pub landed_at_waypoint : Mission W P → Mission W P
  landed_at_waypoint m = set_new_waypoint nan nan nan (command Command.land m)

  -- What holds of the state with the planner reset, of the one after an order to land, given where a
  -- waypoint is set, and of the state as it is, holds after the processing.
  pub process_waypoint-elim {κ} :
      (Q : Mission W P → Type κ) (m : Mission W P)
      → Q (record m { landing_planner = reset m.landing_planner })
      → (is_finite m.new_latitude ≡ true → Q (landed_at_waypoint m))
      → Q m
      → Q (process_waypoint m)
  process_waypoint-elim Q m r l s =
      if_elim Q
        (is_ended m.landing_planner && landed_eq m.telemetry.landed_state LandedState.taking_off) r
        (if_elim_eq Q
          (is_finite m.new_latitude && is_finite m.new_longitude && is_finite m.new_altitude_amsl)
          (λ e.
            if_elim Q (arrived_to_new_waypoint m && m.config.safe_landing_try_landing_after_action)
              (l (and_left _ _ (and_left _ _ e))) s)
          (λ e. s))

  -- "Process any active actions"
  unfoldable pub process_active_actions : Inputs W → Mission W P → Mission W P
  unfolding process_search arrived_to_new_waypoint set_new_waypoint
  process_active_actions i m =
      let searched = process_search i m in
      if is_active m.landing_planner
      then record searched { last_time = i.system_now }
      else process_waypoint m

  -- The early return when safe landing or obstacle avoidance is disabled.
  unfoldable pub disable_search : Mission W P → Mission W P
  unfolding landing_site_search_has_ended
  disable_search m =
      if is_active m.landing_planner
      then landing_site_search_has_ended "DISABLED"
          (command Command.hold (record m { landing_planner = end_search m.landing_planner }))
      else m

  unfoldable pub handle_safe_landing : Inputs W → Mission W P → Mission W P
  unfolding update_obstacle_avoidance_status disable_search trigger_if_landing
      process_active_actions
  handle_safe_landing i m0 =
      let m = update_obstacle_avoidance_status i.ros_now m0 in
      if not m.config.safe_landing_enabled || not m.oa_enabled
      then disable_search m
      else process_active_actions i (trigger_if_landing i m)
