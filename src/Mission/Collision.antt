-- ===== src/Mission/Collision.antt =====
-- The orders of collision avoidance (src/modules/mission_manager/MissionManager.cpp,
-- `handle_simple_collision_avoidance`): which one, and that it comes again.
use autopilot_manager.Common.{
  ℕ, ◌-◌, ◌/◌, ◌≤◌, ◌≡◌, ◌∙◌, ap, refl, String, Bool, true, false, ◌||◌, Option, none, some, ◌∷◌,
  Double, arith, if◌then◌else◌, if_elim_eq, str_eq, eq_iff,
}
use autopilot_manager.Types.{LandedState, landed_eq}
use autopilot_manager.Mission.State.{LandingPlanner, Command, Mission, Inputs, command}
use autopilot_manager.Mission.Avoidance.{act_on_collision, handle_simple_collision_avoidance}
use autopilot_manager.Mission.Loop.{release_action, decision_maker_round}
use autopilot_manager.Mission.Retry.{uses_collision_avoidance, by_collision_avoidance, handle_quiet}

-- The settings that are only held for, supported or not.
abbrev pub is_held : String → Bool
is_held a =
    str_eq a "HOLD"
    || str_eq a "MOVE_XYZ_WRT_CURRENT"
    || str_eq a "GO_TO_WAYPOINT_XYZ"
    || str_eq a "MOVE_LLA_WRT_CURRENT"
    || str_eq a "GO_TO_WAYPOINT"
    || str_eq a "SCRIPT_CALL"
    || str_eq a "API_CALL"

abbrev pub collision_order : {W : Type 0} → String → Option (Command W)
collision_order a =
    if is_held a
    then some Command.hold
    else if str_eq a "RTL"
    then some Command.return_to_launch
    else if str_eq a "LAND"
    then some Command.land
    else none

abbrev pub send : {W P : Type 0} → Option (Command W) → Mission W P → Mission W P
send none m = m
send (some c) m = command c m

module _ {W P : Type 0} where
  -- Collision avoidance answers RTL by a return to launch, LAND by a landing, the seven other settings
  -- by a hold, and any other text by nothing.
  pub act_on_collision_by_table :
      (action : String) (m : Mission W P)
      → act_on_collision action m ≡ send (collision_order action) m
  unfolding act_on_collision
  act_on_collision_by_table action m =
      if_elim_eq Q (str_eq action "HOLD") (λ e. rw ((eq_iff action "HOLD").0 e))
        (λ f0.
          if_elim_eq Q (str_eq action "RTL") (λ e. rw ((eq_iff action "RTL").0 e))
            (λ f1.
              if_elim_eq Q (str_eq action "MOVE_XYZ_WRT_CURRENT")
                (λ e. rw ((eq_iff action "MOVE_XYZ_WRT_CURRENT").0 e))
                (λ f2.
                  if_elim_eq Q (str_eq action "GO_TO_WAYPOINT_XYZ")
                    (λ e. rw ((eq_iff action "GO_TO_WAYPOINT_XYZ").0 e))
                    (λ f3.
                      if_elim_eq Q (str_eq action "MOVE_LLA_WRT_CURRENT")
                        (λ e. rw ((eq_iff action "MOVE_LLA_WRT_CURRENT").0 e))
                        (λ f4.
                          if_elim_eq Q (str_eq action "GO_TO_WAYPOINT")
                            (λ e. rw ((eq_iff action "GO_TO_WAYPOINT").0 e))
                            (λ f5.
                              if_elim_eq Q (str_eq action "LAND")
                                (λ e. rw ((eq_iff action "LAND").0 e))
                                (λ f6.
                                  if_elim_eq Q (str_eq action "SCRIPT_CALL")
                                    (λ e. rw ((eq_iff action "SCRIPT_CALL").0 e))
                                    (λ f7.
                                      if_elim_eq Q (str_eq action "API_CALL")
                                        (λ e. rw ((eq_iff action "API_CALL").0 e))
                                        (λ f8. rw (f0, f1, f2, f3, f4, f5, f6, f7, f8))))))))))
    where
      Q : Mission W P → Type 0
      Q n = n ≡ send (collision_order action) m

module _ {W P : Type 0} ⦃d : Double W⦄ ⦃lp : LandingPlanner W P⦄ where
  -- What makes collision avoidance act, but for an action already in progress.
  pub record IsObstacle (i : Inputs W) (m : Mission W P) : Type 0 where
    pub manager_enabled : i.config_update.autopilot_manager_enabled ≡ true
    pub input_type : uses_collision_avoidance i.config_update ≡ true
    pub enabled : i.config_update.simple_collision_avoid_enabled ≡ true
    pub finite : d.is_finite i.distance_to_obstacle ≡ true
    pub near :
        d.le i.distance_to_obstacle_again i.config_update.simple_collision_avoid_distance_threshold
        ≡ true
    pub in_air : landed_eq m.telemetry.landed_state LandedState.in_air ≡ true

  handle_acts :
      (i : Inputs W) (m : Mission W P)
      → m.config.simple_collision_avoid_enabled ≡ true
      → d.is_finite i.distance_to_obstacle ≡ true
      → d.le i.distance_to_obstacle_again m.config.simple_collision_avoid_distance_threshold ≡ true
      → landed_eq m.telemetry.landed_state LandedState.in_air ≡ true
      → m.action_in_progress ≡ false
      → let n = handle_simple_collision_avoidance i m in
        (n.log
          ≡ (send (collision_order m.config.simple_collision_avoid_action_on_condition_true) m).log)
        × (n.action_in_progress ≡ true)
        × (n.last_time ≡ i.system_now)
  unfolding handle_simple_collision_avoidance
  handle_acts i m e f n a h =
      let action = m.config.simple_collision_avoid_action_on_condition_true in
      simp (e, f, n, a, h)
        (ap (λ (x : Mission W P). x.log) (act_on_collision_by_table action m), refl, refl)

  release_fresh : (now : ℕ) (m : Mission W P) → m.last_time ≡ now → release_action now m ≡ m
  unfolding release_action
  release_fresh now m h = ground arith

  -- With an obstacle before it, an idle round sends what the table says for the setting, and takes the
  -- time.
  acts :
      (i : Inputs W) (m : Mission W P)
      → IsObstacle i m
      → m.action_in_progress ≡ false
      → let n = decision_maker_round i m in
        (n.log
          ≡ (send
              (collision_order i.config_update.simple_collision_avoid_action_on_condition_true)
              m).log)
        × (n.action_in_progress ≡ true)
        × (n.last_time ≡ i.system_now)
  unfolding decision_maker_round
  acts i m o h =
      let m' = record m { config = i.config_update } in
      let action = i.config_update.simple_collision_avoid_action_on_condition_true in
      ground (
        arith,
        by_collision_avoidance i m' o.input_type,
        handle_acts i m' o.enabled o.finite o.near o.in_air h,
        release_fresh i.system_now (handle_simple_collision_avoidance i m'),
      )

  releases :
      (i : Inputs W) (m : Mission W P)
      → m.action_in_progress ≡ true
      → i.config_update.autopilot_manager_enabled ≡ true
      → uses_collision_avoidance i.config_update ≡ true
      → 5000 ≤ (i.system_now - m.last_time) / 1_000_000
      → decision_maker_round i m ≡ record m { config = i.config_update; action_in_progress = false }
  unfolding decision_maker_round release_action
  releases i m h e u w =
      let m' = record m { config = i.config_update } in
      ground (arith, by_collision_avoidance i m' u, handle_quiet i m' h)

  send-log :
      (c : Option (Command W)) (m n : Mission W P) → m.log ≡ n.log → (send c m).log ≡ (send c n).log
  send-log none m n e = e
  send-log (some c) m n e = ap (λ l. c ∷ l) e

  -- Five seconds after an action one round only releases it, and with an obstacle before the vehicle
  -- the next round acts again.
  pub acts_again :
      (i j : Inputs W) (m : Mission W P)
      → m.action_in_progress ≡ true
      → i.config_update.autopilot_manager_enabled ≡ true
      → uses_collision_avoidance i.config_update ≡ true
      → 5000 ≤ (i.system_now - m.last_time) / 1_000_000
      → IsObstacle j m
      → let n = decision_maker_round j (decision_maker_round i m) in
        (n.log
          ≡ (send
              (collision_order j.config_update.simple_collision_avoid_action_on_condition_true)
              m).log)
        × (n.action_in_progress ≡ true)
        × (n.last_time ≡ j.system_now)
  acts_again i j m h e u w o =
      let released = record m { config = i.config_update; action_in_progress = false } in
      let o' : IsObstacle j released = record {
        manager_enabled = o.manager_enabled;
        input_type = o.input_type;
        enabled = o.enabled;
        finite = o.finite;
        near = o.near;
        in_air = o.in_air;
      } in
      rw (releases i m h e u w) (
        let (log, busy, time) = acts j released o' refl in
        (log ∙ send-log _ released m refl, busy, time))
