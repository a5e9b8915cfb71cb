-- ===== src/Mission/Start.antt =====
-- What a landing site search needs in order to start (src/modules/mission_manager/MissionManager.cpp).
use autopilot_manager.Common.{
  ◌-◌, ◌≡◌, refl, sym, ◌∙◌, ℕ, true, false, not, ◌&&◌, ◌||◌, Double, arith, if_elim_eq, ltb, str_eq,
}
use autopilot_manager.Mission.State.{LandingPlanner, IsLandingPlanner, Mission, Inputs}
use autopilot_manager.Mission.Waypoint.{landing_triggered, set_new_waypoint}
use autopilot_manager.Mission.Trigger.{trigger_if_landing}
use autopilot_manager.Mission.SafeLanding.{
  trajectory_timeout, process_waypoint, process_waypoint-elim, update_obstacle_avoidance_status,
  process_active_actions, disable_search, handle_safe_landing,
}
use autopilot_manager.Mission.Avoidance.{
  act_on_collision, act_on_collision-elim, handle_simple_collision_avoidance,
}
use autopilot_manager.Mission.Trajectory.{on_mavlink_trajectory_message}
use autopilot_manager.Mission.Callbacks.{
  on_position, on_health, on_position_velocity_ned, on_attitude_euler, GpsGlobalOrigin,
  on_landed_state, set_global_position_reference, flight_mode_callback,
}
use autopilot_manager.Mission.Loop.{
  decide_by_input_type, decision_maker_round, release_action, Step,
}
use autopilot_manager.Mission.Refusal.{
  contradict, both_enabled, refuses, IsSearching, triggered_if_landing,
}

module _ {W P : Type 0} ⦃d : Double W⦄ ⦃lp : LandingPlanner W P⦄ where
  -- What a round that starts a search reads: the manager, its safe landing and a search on refusal are
  -- configured, a trajectory came in the last half second, no action is in progress, the vehicle is
  -- landing, an origin is known, and the ground refuses the landing.
  pub record MayStart (i : Inputs W) (m : Mission W P) : Type 0 where
    pub manager_enabled : i.config_update.autopilot_manager_enabled ≡ true
    pub input_type : str_eq i.config_update.decision_maker_input_type "SAFE_LANDING" ≡ true
    pub safe_landing_enabled : i.config_update.safe_landing_enabled ≡ true
    pub setting : str_eq i.config_update.safe_landing_on_no_safe_land "LANDING_SITE_SEARCH" ≡ true
    pub has_avoidance : ltb (i.ros_now - m.time_last_traj) trajectory_timeout ≡ true
    pub has_origin : m.global_origin_reference_set ≡ true
    pub landing :
        not m.action_in_progress
          && landing_triggered m.telemetry.flight_mode m.telemetry.landed_state
        ≡ true
    pub refused : refuses i.landing_state (d.lt (d.lit 15 1) i.height_above_obstacle) ≡ true

  module _ (laws : IsLandingPlanner lp) where
    waypoint_only :
        (m : Mission W P)
        → lp.is_active m.landing_planner ≡ false
        → lp.is_active (process_waypoint m).landing_planner ≡ false
    unfolding set_new_waypoint
    waypoint_only m off =
        process_waypoint-elim (λ n. lp.is_active n.landing_planner ≡ false) m
          (laws.is_active-reset m.landing_planner) (λ _. off) off

    processed :
        (i : Inputs W) (m : Mission W P) → IsSearching (process_active_actions i m) → IsSearching m
    unfolding process_active_actions
    processed i m =
        if_elim_eq (λ n. IsSearching {W = W} {P = P} n → IsSearching m)
          (lp.is_active m.landing_planner) (λ active _. active)
          (λ off on. absurd (contradict _ on (waypoint_only m off)))

    disabled :
        (m : Mission W P)
        → lp.is_active m.landing_planner ≡ false
        → lp.is_active (disable_search m).landing_planner ≡ false
    unfolding disable_search
    disabled m off = ground (arith, off)

    handled :
        (i : Inputs W) (m0 : Mission W P)
        → lp.is_active m0.landing_planner ≡ false
        → IsSearching (handle_safe_landing i m0)
        → let m = update_obstacle_avoidance_status i.ros_now m0 in
          (not m.config.safe_landing_enabled || not m.oa_enabled ≡ false)
          × IsSearching (trigger_if_landing i m)
    unfolding handle_safe_landing update_obstacle_avoidance_status disable_search
    handled i m0 off =
        if_elim_eq (λ n. IsSearching {W = W} {P = P} n → Reaches)
          (not m.config.safe_landing_enabled || not m.oa_enabled)
          (λ _ on. absurd (contradict _ on (disabled m off)))
          (λ e on. (e, processed i (trigger_if_landing i m) on))
      where
        m : Mission W P
        m = update_obstacle_avoidance_status i.ros_now m0

        Reaches : Type 0
        Reaches =
            (not m.config.safe_landing_enabled || not m.oa_enabled ≡ false)
            × IsSearching (trigger_if_landing i m)

    collision_only :
        (i : Inputs W) (m : Mission W P)
        → lp.is_active m.landing_planner ≡ false
        → lp.is_active (handle_simple_collision_avoidance i m).landing_planner ≡ false
    unfolding handle_simple_collision_avoidance
    collision_only i m off =
        let acted_off : lp.is_active
              (act_on_collision m.config.simple_collision_avoid_action_on_condition_true
                m).landing_planner
            ≡ false =
          act_on_collision-elim (λ n. lp.is_active n.landing_planner ≡ false)
            m.config.simple_collision_avoid_action_on_condition_true m off off off off in
        ground (arith, acted_off)

    decided :
        (i : Inputs W) (m : Mission W P)
        → lp.is_active m.landing_planner ≡ false
        → IsSearching (decide_by_input_type i m)
        → (str_eq m.config.decision_maker_input_type "SAFE_LANDING" ≡ true)
          × IsSearching (handle_safe_landing i m)
    unfolding decide_by_input_type
    decided i m off on = ground (arith, collision_only i m off)

    released :
        (now : ℕ) (m : Mission W P)
        → lp.is_active (release_action now m).landing_planner ≡ lp.is_active m.landing_planner
    unfolding release_action
    released now m = ground arith

    round_starts :
        (i : Inputs W) (m : Mission W P)
        → lp.is_active m.landing_planner ≡ false
        → IsSearching (decision_maker_round i m)
        → MayStart i m
    unfolding decision_maker_round update_obstacle_avoidance_status
    round_starts i m0 off =
        if_elim_eq (λ n. IsSearching {W = W} {P = P} n → MayStart i m0)
          m.config.autopilot_manager_enabled
          (λ e on.
            let (input, on_handled) =
              decided i m off (sym (released i.system_now (decide_by_input_type i m)) ∙ on) in
            let (enabled, on_triggered) = handled i m off on_handled in
            let (can, r, g) =
              triggered_if_landing (update_obstacle_avoidance_status i.ros_now m) off i
                on_triggered in
            record {
              manager_enabled = e;
              input_type = input;
              safe_landing_enabled = both_enabled _ _ enabled;
              setting = can.setting;
              has_avoidance = can.has_avoidance;
              has_origin = can.has_origin;
              landing = g;
              refused = r;
            })
          (λ _ on. absurd (contradict _ on off))
      where
        m : Mission W P
        m = record m0 { config = i.config_update }

    -- A search starts in a round only, and only as `MayStart` says of what that round reads and of the state
    -- before it: no callback starts one.
    pub search_start_guarded :
        {m n : Mission W P}
        → Step m n
        → lp.is_active m.landing_planner ≡ false
        → IsSearching n
        → (i : Inputs W) × (n ≡ decision_maker_round i m) × MayStart i m
    unfolding on_mavlink_trajectory_message on_landed_state set_global_position_reference
        on_position on_health on_position_velocity_ned on_attitude_euler flight_mode_callback
    search_start_guarded {m} (Step.round i) off on = (i, refl, round_starts i m off on)
    search_start_guarded {m} (Step.trajectory i) off on = absurd (ground arith)
    search_start_guarded {m} (Step.mode f) off on =
        absurd (ground (arith, laws.is_active-reset m.landing_planner))
    search_start_guarded {m} (Step.landed l) off on = absurd (ground arith)
    search_start_guarded {m} (Step.position p) off on = absurd (contradict _ on off)
    search_start_guarded {m} (Step.health g o) off on = absurd (contradict _ on off)
    search_start_guarded {m} (Step.velocity p) off on = absurd (contradict _ on off)
    search_start_guarded {m} (Step.attitude y) off on = absurd (contradict _ on off)
    search_start_guarded {m} (Step.origin (GpsGlobalOrigin.success lat lon alt)) off on =
        absurd (ground arith)
    search_start_guarded {m} (Step.origin GpsGlobalOrigin.timeout) off on =
        absurd (contradict _ on off)
    search_start_guarded {m} (Step.origin GpsGlobalOrigin.failure) off on =
        absurd (contradict _ on off)
