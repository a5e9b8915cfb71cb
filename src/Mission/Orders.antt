-- ===== src/Mission/Orders.antt =====
-- The orders that the mission manager gives the vehicle when a landing is refused
-- (src/modules/mission_manager/MissionManager.cpp, `handle_safe_landing`).
use autopilot_manager.Common.{
  String, ◌≡◌, refl, ◌⊎◌, inl, inr, Bool, true, false, ◌&&◌, ◌||◌, List, [], ◌∷◌, Double, arith,
  if_elim, if_elim_eq, not, str_eq,
}
use autopilot_manager.Mission.State.{LandingPlanner, Command, Mission, Inputs}
use autopilot_manager.Mission.Trigger.{
  landing_planner_config, is_at_waypoint, move_wrt_current, start_landing_site_search,
  go_to_waypoint, act_on_no_safe_land,
}

-- The commands that move the vehicle: all but texts and trajectories.
abbrev pub orders : {W : Type 0} → List (Command W) → List (Command W)
orders [] = []
orders (Command.status_text type text ∷ l) = orders l
orders (Command.send_trajectory t ∷ l) = orders l
orders (Command.hold ∷ l) = Command.hold ∷ orders l
orders (Command.return_to_launch ∷ l) = Command.return_to_launch ∷ orders l
orders (Command.land ∷ l) = Command.land ∷ orders l
orders (Command.goto_location a b c e ∷ l) = Command.goto_location a b c e ∷ orders l

-- The nine settings of `safe_landing_on_no_safe_land`.
abbrev pub is_known_action : String → Bool
is_known_action a =
    str_eq a "HOLD"
    || str_eq a "RTL"
    || str_eq a "MOVE_XYZ_WRT_CURRENT"
    || str_eq a "LANDING_SITE_SEARCH"
    || str_eq a "GO_TO_WAYPOINT_XYZ"
    || str_eq a "MOVE_LLA_WRT_CURRENT"
    || str_eq a "GO_TO_WAYPOINT"
    || str_eq a "SCRIPT_CALL"
    || str_eq a "API_CALL"

module _ {W P : Type 0} ⦃d : Double W⦄ ⦃lp : LandingPlanner W P⦄ where
  -- From `m` to `n`: one order was given, or a search is active and none was.
  pub data IsAnswered (m n : Mission W P) : Type 0 where
    ordered : (c : Command W) → orders n.log ≡ c ∷ orders m.log → IsAnswered m n
    searching : lp.is_active n.landing_planner ≡ true → orders n.log ≡ orders m.log → IsAnswered m n

  move_wrt_current-IsAnswered :
      (i : Inputs W) (m : Mission W P) → IsAnswered m (move_wrt_current i m)
  unfolding move_wrt_current
  move_wrt_current-IsAnswered i m =
      if_elim (IsAnswered m) m.global_origin_reference_set (IsAnswered.ordered _ refl)
        (IsAnswered.ordered _ refl)

  go_to_waypoint-IsAnswered : (m : Mission W P) → IsAnswered m (go_to_waypoint m)
  unfolding go_to_waypoint
  go_to_waypoint-IsAnswered m =
      if_elim (IsAnswered m) (is_at_waypoint m) (IsAnswered.ordered _ refl) (
        if_elim (IsAnswered m) m.global_origin_reference_set (IsAnswered.ordered _ refl)
          (IsAnswered.ordered _ refl))

  start_landing_site_search-IsAnswered :
      (i : Inputs W) (m : Mission W P) → IsAnswered m (start_landing_site_search i m)
  unfolding start_landing_site_search
  start_landing_site_search-IsAnswered i m =
      if_elim_eq (IsAnswered m) (m.global_origin_reference_set && m.oa_enabled)
        (λ _.
          if_elim_eq (IsAnswered m) (lp.is_active p) (λ a. IsAnswered.searching a refl)
            (λ _. IsAnswered.ordered _ refl))
        (λ e.
          if_elim_eq (IsAnswered m) (not m.global_origin_reference_set)
            (λ _. IsAnswered.ordered _ refl)
            (λ f.
              if_elim_eq (IsAnswered m) (not m.oa_enabled) (λ _. IsAnswered.ordered _ refl)
                (λ g. absurd (both_set _ _ e f g))))
    where
      p : P
      p =
          lp.start_search m.telemetry.current_pos_x m.telemetry.current_pos_y
            m.telemetry.current_yaw (d.neg m.telemetry.current_pos_z)
            (landing_planner_config m.config) m.landing_planner

      both_set : (a b : Bool) → (a && b) ≡ false → not a ≡ false → not b ≡ false → ⊥
      both_set a b e f g = ground arith

  -- For each of the nine settings of `safe_landing_on_no_safe_land`, refusing a landing gives the
  -- vehicle exactly one order, or starts a landing site search that is active and gives none; for any
  -- other setting nothing is done.
  pub act_on_no_safe_land_answers :
      (i : Inputs W) (action : String) (m : Mission W P)
      → ((is_known_action action ≡ true) × IsAnswered m (act_on_no_safe_land i action m))
        ⊎ ((is_known_action action ≡ false) × (act_on_no_safe_land i action m ≡ m))
  unfolding act_on_no_safe_land
  act_on_no_safe_land_answers i action m =
      if_elim_eq Q (str_eq action "HOLD") (λ e. known (IsAnswered.ordered _ refl) (rw (e)))
        (λ f0.
          if_elim_eq Q (str_eq action "RTL") (λ e. known (IsAnswered.ordered _ refl) (rw (f0, e)))
            (λ f1.
              if_elim_eq Q (str_eq action "MOVE_XYZ_WRT_CURRENT")
                (λ e. known (move_wrt_current-IsAnswered i m) (rw (f0, f1, e)))
                (λ f2.
                  if_elim_eq Q (str_eq action "LANDING_SITE_SEARCH")
                    (λ e. known (start_landing_site_search-IsAnswered i m) (rw (f0, f1, f2, e)))
                    (λ f3.
                      if_elim_eq Q (str_eq action "GO_TO_WAYPOINT_XYZ")
                        (λ e. known (IsAnswered.ordered _ refl) (rw (f0, f1, f2, f3, e)))
                        (λ f4.
                          if_elim_eq Q (str_eq action "MOVE_LLA_WRT_CURRENT")
                            (λ e. known (IsAnswered.ordered _ refl) (rw (f0, f1, f2, f3, f4, e)))
                            (λ f5.
                              if_elim_eq Q (str_eq action "GO_TO_WAYPOINT")
                                (λ e.
                                  known (go_to_waypoint-IsAnswered m)
                                    (rw (f0, f1, f2, f3, f4, f5, e)))
                                (λ f6.
                                  if_elim_eq Q (str_eq action "SCRIPT_CALL")
                                    (λ e.
                                      known (IsAnswered.ordered _ refl)
                                        (rw (f0, f1, f2, f3, f4, f5, f6, e)))
                                    (λ f7.
                                      if_elim_eq Q (str_eq action "API_CALL")
                                        (λ e.
                                          known (IsAnswered.ordered _ refl)
                                            (rw (f0, f1, f2, f3, f4, f5, f6, f7, e)))
                                        (λ f8.
                                          inr
                                            (rw (f0, f1, f2, f3, f4, f5, f6, f7, f8), refl))))))))))
    where
      Q : Mission W P → Type 0
      Q n =
          ((is_known_action action ≡ true) × IsAnswered m n)
          ⊎ ((is_known_action action ≡ false) × (n ≡ m))

      known : {n : Mission W P} → IsAnswered m n → is_known_action action ≡ true → Q n
      known a k = inl (k, a)
