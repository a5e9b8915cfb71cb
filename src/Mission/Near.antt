-- ===== src/Mission/Near.antt =====
-- What a command of the collision avoidance needs (src/modules/mission_manager/MissionManager.cpp,
-- `decision_maker_run` with `handle_simple_collision_avoidance`).
use autopilot_manager.Common.{
  ℕ, ◌≡◌, ◌≢◌, refl, ◌∙◌, ap, subst, Bool, true, ◌&&◌, not, Double, arith, if_elim, if_elim_eq,
  if◌then◌else◌,
}
use autopilot_manager.Types.{LandedState, landed_eq}
use autopilot_manager.Mission.State.{Configuration, LandingPlanner, Mission, Inputs}
use autopilot_manager.Mission.Avoidance.{act_on_collision, handle_simple_collision_avoidance}
use autopilot_manager.Mission.Retry.{by_collision_avoidance, uses_collision_avoidance}
use autopilot_manager.Mission.Loop.{release_action, decide_by_input_type, decision_maker_round}

module _ {W : Type 0} ⦃d : Double W⦄ where
  -- The distance that the round reads is a number not above the threshold.
  abbrev pub IsNear : Inputs W → Type 0
  IsNear i =
      (d.is_finite i.distance_to_obstacle ≡ true)
      × (d.le i.distance_to_obstacle_again i.config_update.simple_collision_avoid_distance_threshold
          ≡ true)

both : (a b c e : Bool) → a && b && c && e ≡ true → (a ≡ true) × (b ≡ true)
both a b c e h = (ground arith, ground arith)

module _ {W P : Type 0} ⦃d : Double W⦄ where
  sends-IsNear :
      (i : Inputs W) (m : Mission W P)
      → m.config ≡ i.config_update
      → (handle_simple_collision_avoidance i m).log ≢ m.log
      → IsNear i
  unfolding handle_simple_collision_avoidance
  sends-IsNear i m e =
      let c = m.config in
      let finite = d.is_finite i.distance_to_obstacle in
      let near = d.le i.distance_to_obstacle_again c.simple_collision_avoid_distance_threshold in
      let in_air = landed_eq m.telemetry.landed_state LandedState.in_air in
      let acted = act_on_collision c.simple_collision_avoid_action_on_condition_true m in
      let n = record acted { action_in_progress = true; last_time = i.system_now } in
      let test = finite && near && in_air && not m.action_in_progress in
      if_elim_eq Q c.simple_collision_avoid_enabled {x = if test then n else m} {y = m}
        (λ _.
          if_elim_eq Q test {x = n} {y = m}
            (λ t h.
              let (a, b) = both finite near in_air (not m.action_in_progress) t in
              (a, subst Near e b))
            (λ _ h. absurd (h refl)))
        (λ _ h. absurd (h refl))
    where
      Near : Configuration W → Type 0
      Near c = d.le i.distance_to_obstacle_again c.simple_collision_avoid_distance_threshold ≡ true

      Q : Mission W P → Type 0
      Q n = n.log ≢ m.log → IsNear i

  released : (now : ℕ) (m : Mission W P) → (release_action now m).log ≡ m.log
  unfolding release_action
  released now m = ground arith

  IsNear-of_config :
      (i : Inputs W) (m : Mission W P)
      → (handle_simple_collision_avoidance i (record m { config = i.config_update })).log ≢ m.log
      → IsNear i
  IsNear-of_config i m h = sends-IsNear i (record m { config = i.config_update }) refl h

module _ {W P : Type 0} ⦃d : Double W⦄ ⦃lp : LandingPlanner W P⦄ where
  pub round-IsNear :
      (i : Inputs W) (m : Mission W P)
      → uses_collision_avoidance i.config_update ≡ true
      → (decision_maker_round i m).log ≢ m.log
      → IsNear i
  unfolding decision_maker_round
  round-IsNear i m input =
      let m' = record m { config = i.config_update } in
      let handled = handle_simple_collision_avoidance i m' in
      let decided = by_collision_avoidance i m' input in
      if_elim (λ n. n.log ≢ m.log → IsNear i) i.config_update.autopilot_manager_enabled
        {x = release_action i.system_now (decide_by_input_type i m')} {y = m'}
        (λ h. IsNear-of_config i m (λ e. h (
          released i.system_now (decide_by_input_type i m')
          ∙ ap (λ (n : Mission W P). n.log) decided
          ∙ e)))
        (λ h. absurd (h refl))
