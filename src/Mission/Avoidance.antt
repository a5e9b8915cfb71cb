-- ===== src/Mission/Avoidance.antt =====
-- src/modules/mission_manager/MissionManager.cpp: `handle_simple_collision_avoidance`.
use autopilot_manager.Common.{String, true, ◌&&◌, not, Double, if◌then◌else◌, if_elim, str_eq}
use autopilot_manager.Types.{LandedState, landed_eq}
use autopilot_manager.Mission.State.{Command, Mission, Inputs, command}

module _ {W P : Type 0} where
  -- The chain of tests on `simple_collision_avoid_action_on_condition_true`.
  unfoldable pub act_on_collision : String → Mission W P → Mission W P
  act_on_collision action m =
      if str_eq action "HOLD"
      then command Command.hold m
      else if str_eq action "RTL"
      then command Command.return_to_launch m
      else if str_eq action "MOVE_XYZ_WRT_CURRENT"
      then command Command.hold m
      else if str_eq action "GO_TO_WAYPOINT_XYZ"
      then command Command.hold m
      else if str_eq action "MOVE_LLA_WRT_CURRENT"
      then command Command.hold m
      else if str_eq action "GO_TO_WAYPOINT"
      then command Command.hold m
      else if str_eq action "LAND"
      then command Command.land m
      else if str_eq action "SCRIPT_CALL"
      then command Command.hold m
      else if str_eq action "API_CALL"
      then command Command.hold m
      else m

  -- What holds after a hold, a return to launch, a landing and after nothing holds after the chain.
  pub act_on_collision-elim {ℓ} :
      (Q : Mission W P → Type ℓ) (action : String) (m : Mission W P)
      → Q (command Command.hold m)
      → Q (command Command.return_to_launch m)
      → Q (command Command.land m)
      → Q m
      → Q (act_on_collision action m)
  unfolding act_on_collision
  act_on_collision-elim Q action m hold rtl land nothing = if_elim Q (str_eq action "HOLD") hold (
      if_elim Q (str_eq action "RTL") rtl (
        if_elim Q (str_eq action "MOVE_XYZ_WRT_CURRENT") hold (
          if_elim Q (str_eq action "GO_TO_WAYPOINT_XYZ") hold (
            if_elim Q (str_eq action "MOVE_LLA_WRT_CURRENT") hold (
              if_elim Q (str_eq action "GO_TO_WAYPOINT") hold (
                if_elim Q (str_eq action "LAND") land (
                  if_elim Q (str_eq action "SCRIPT_CALL") hold
                    (if_elim Q (str_eq action "API_CALL") hold nothing))))))))

module _ {W P : Type 0} ⦃d : Double W⦄ where
  open d use {is_finite, le}

  unfoldable pub handle_simple_collision_avoidance : Inputs W → Mission W P → Mission W P
  handle_simple_collision_avoidance i m =
      let c = m.config in
      let in_air = landed_eq m.telemetry.landed_state LandedState.in_air in
      let acted = act_on_collision c.simple_collision_avoid_action_on_condition_true m in
      if c.simple_collision_avoid_enabled
      then (if is_finite i.distance_to_obstacle
            && le i.distance_to_obstacle_again c.simple_collision_avoid_distance_threshold
            && in_air
            && not m.action_in_progress
          then record acted { action_in_progress = true; last_time = i.system_now }
          else m)
      else m
