-- ===== src/Mission/Refusal.antt =====
-- When a refused landing starts a landing site search (src/modules/mission_manager/MissionManager.cpp,
-- the part of `handle_safe_landing` in Mission.Trigger).
use autopilot_manager.Common.{
  String, ◌≡◌, Bool, true, false, not, ◌&&◌, ◌||◌, Double, arith, if_elim_eq, str_eq,
}
use autopilot_manager.Types.{MapperState, mapper_eq}
use autopilot_manager.Mission.State.{LandingPlanner, Mission, Inputs}
use autopilot_manager.Mission.Waypoint.{landing_triggered}
use autopilot_manager.Mission.Trigger.{
  move_wrt_current, start_landing_site_search, go_to_waypoint, act_on_no_safe_land,
  act_on_no_safe_land-elim, trigger_on, trigger_if_landing,
}

pub contradict : (b : Bool) → b ≡ true → b ≡ false → ⊥
contradict b h k = ground arith

pub both_enabled : (safe avoidance : Bool) → not safe || not avoidance ≡ false → safe ≡ true
both_enabled s o e = ground arith

-- The ground cannot be landed on, or is not known at more than 1.5 m above it.
abbrev pub refuses : MapperState → Bool → Bool
refuses s above = mapper_eq s MapperState.can_not_land || (mapper_eq s MapperState.unknown && above)

module _ {W P : Type 0} ⦃lp : LandingPlanner W P⦄ where
  abbrev pub IsSearching : Mission W P → Type 0
  IsSearching m = lp.is_active m.landing_planner ≡ true

module _ {W P : Type 0} ⦃d : Double W⦄ ⦃lp : LandingPlanner W P⦄ where
  -- The setting, and what the start of a search tests.
  pub record CanStart (action : String) (m : Mission W P) : Type 0 where
    pub setting : str_eq action "LANDING_SITE_SEARCH" ≡ true
    pub has_origin : m.global_origin_reference_set ≡ true
    pub has_avoidance : m.oa_enabled ≡ true

  module _ (m : Mission W P) (off : lp.is_active m.landing_planner ≡ false) where
    started :
        (i : Inputs W)
        → IsSearching (start_landing_site_search i m)
        → (m.global_origin_reference_set ≡ true) × (m.oa_enabled ≡ true)
    unfolding start_landing_site_search
    started i a = ground arith

    not_moved : (i : Inputs W) → lp.is_active (move_wrt_current i m).landing_planner ≡ false
    unfolding move_wrt_current
    not_moved i = ground arith

    not_gone : lp.is_active (go_to_waypoint m).landing_planner ≡ false
    unfolding go_to_waypoint
    not_gone = ground arith

    acted :
        (i : Inputs W) (action : String)
        → IsSearching (act_on_no_safe_land i action m)
        → CanStart action m
    acted i action =
        act_on_no_safe_land-elim (λ n. IsSearching {W = W} {P = P} n → CanStart action m) i action m
          (λ _ _ q. q) (λ a. absurd (contradict _ a (not_moved i)))
          (λ e a. record {
            setting = e;
            has_origin = (started i a).0;
            has_avoidance = (started i a).1;
          })
          (λ a. absurd (contradict _ a not_gone)) (λ a. absurd (contradict _ a off))

    triggered :
        (i : Inputs W) (s : MapperState) (above : Bool)
        → IsSearching (trigger_on i s above m)
        → CanStart m.config.safe_landing_on_no_safe_land m × (refuses s above ≡ true)
    unfolding trigger_on
    triggered i s above a =
        if_elim_eq (λ n. IsSearching {W = W} {P = P} n → Refused)
          (mapper_eq s MapperState.unhealthy && above) (λ _ on. absurd (contradict _ on off))
          (λ _.
            if_elim_eq (λ n. IsSearching {W = W} {P = P} n → Refused) (refuses s above)
              (λ r on. (acted i m.config.safe_landing_on_no_safe_land on, r))
              (λ _ on. absurd (contradict _ on off)))
          a
      where
        Refused : Type 0
        Refused = CanStart m.config.safe_landing_on_no_safe_land m × (refuses s above ≡ true)

    pub triggered_if_landing :
        (i : Inputs W)
        → IsSearching (trigger_if_landing i m)
        → CanStart m.config.safe_landing_on_no_safe_land m
          × (refuses i.landing_state (d.lt (d.lit 15 1) i.height_above_obstacle) ≡ true)
          × (not m.action_in_progress
                && landing_triggered m.telemetry.flight_mode m.telemetry.landed_state
              ≡ true)
    unfolding trigger_if_landing
    triggered_if_landing i a =
        if_elim_eq (λ n. IsSearching {W = W} {P = P} n → Guarded)
          (not m.action_in_progress
            && landing_triggered m.telemetry.flight_mode m.telemetry.landed_state)
          (λ g on.
            let (can, r) =
              triggered i i.landing_state (d.lt (d.lit 15 1) i.height_above_obstacle) on in
            (can, r, g))
          (λ _ on. absurd (contradict _ on off)) a
      where
        Guarded : Type 0
        Guarded =
            CanStart m.config.safe_landing_on_no_safe_land m
            × (refuses i.landing_state (d.lt (d.lit 15 1) i.height_above_obstacle) ≡ true)
            × (not m.action_in_progress
                  && landing_triggered m.telemetry.flight_mode m.telemetry.landed_state
                ≡ true)
