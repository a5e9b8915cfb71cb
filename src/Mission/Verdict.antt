-- ===== src/Mission/Verdict.antt =====
-- The decision of `handle_safe_landing` about a landing that has been triggered, against the table in
-- its comment (src/modules/mission_manager/MissionManager.cpp).
use autopilot_manager.Common.{
  ℕ, ◌≡◌, refl, Bool, true, false, ◌&&◌, not, Double, arith, if◌then◌else◌,
}
use autopilot_manager.Types.{MapperState, StatusTextType}
use autopilot_manager.Mission.State.{LandingPlanner, Command, Mission, Inputs, command}
use autopilot_manager.Mission.Waypoint.{landing_triggered}
use autopilot_manager.Mission.Search.{status}
use autopilot_manager.Mission.Trigger.{
  act_on_no_safe_land, mark_action, trigger_on, trigger_if_landing,
}

-- "Stop landing and hold", "Start safe landing", "Land without intervention".
pub data Verdict : Type 0 where
  stop_and_hold start_safe_landing land_without_intervention : Verdict

-- The comment's table, by the state of the mapper and whether the vehicle is above 1.5 m.
abbrev pub verdict : MapperState → Bool → Verdict
verdict MapperState.unhealthy true = Verdict.stop_and_hold
verdict MapperState.can_not_land above = Verdict.start_safe_landing
verdict MapperState.unknown true = Verdict.start_safe_landing
verdict _ _ = Verdict.land_without_intervention

module _ {W P : Type 0} ⦃d : Double W⦄ ⦃lp : LandingPlanner W P⦄ where
  abbrev pub carry_out : Inputs W → Verdict → Mission W P → Mission W P
  carry_out i Verdict.stop_and_hold m = mark_action i (
      status StatusTextType.warning "Safe landing system not healthy. Holding position..."
        (command Command.hold m))
  carry_out i Verdict.start_safe_landing m =
      mark_action i (act_on_no_safe_land i m.config.safe_landing_on_no_safe_land m)
  carry_out i Verdict.land_without_intervention m = m

  trigger_on_by_table :
      (i : Inputs W) (s : MapperState) (above : Bool) (m : Mission W P)
      → trigger_on i s above m ≡ carry_out i (verdict s above) m
  unfolding trigger_on
  trigger_on_by_table i MapperState.unknown true m = refl
  trigger_on_by_table i MapperState.unknown false m = refl
  trigger_on_by_table i MapperState.unhealthy true m = refl
  trigger_on_by_table i MapperState.unhealthy false m = refl
  trigger_on_by_table i MapperState.can_not_land above m = refl
  trigger_on_by_table i MapperState.can_land above m = refl
  trigger_on_by_table i MapperState.close_to_ground above m = refl
  trigger_on_by_table i (MapperState.other n) above m = other_code n
    where
      other_code : (n : ℕ) → trigger_on i (MapperState.other n) above m ≡ m
      other_code n = ground arith

  -- While no action is in progress and a landing is triggered, the decision maker does what the
  -- comment's table says for the state of the mapper and the height above the obstacle; in all other
  -- cases it changes nothing.
  pub trigger_if_landing_by_table :
      (i : Inputs W) (m : Mission W P)
      → let triggered =
          not m.action_in_progress
          && landing_triggered m.telemetry.flight_mode m.telemetry.landed_state in
        let above = d.lt (d.lit 15 1) i.height_above_obstacle in
        trigger_if_landing i m
        ≡ (if triggered then carry_out i (verdict i.landing_state above) m else m)
  unfolding trigger_if_landing
  trigger_if_landing_by_table i m = rw (trigger_on_by_table i i.landing_state _ m)
