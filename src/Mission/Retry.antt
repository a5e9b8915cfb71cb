-- ===== src/Mission/Retry.antt =====
-- The five seconds that an action is given (src/modules/mission_manager/MissionManager.cpp,
-- `decision_maker_run` with `handle_simple_collision_avoidance`).
use autopilot_manager.Common.{
  ℕ, ◌-◌, ◌/◌, ◌<◌, ◌≡◌, ◌∙◌, refl, String, sym, inl, inr, Bool-cases, Bool, true, ◌&&◌, not,
  Double, arith, if_elim, ◌||◌, if◌then◌else◌, str_eq,
}
use mathlib.Core.Path.{subst}
use mathlib.Core.Bool.{false≢true}
use autopilot_manager.Mission.State.{LandingPlanner, Configuration, Mission, Inputs}
use autopilot_manager.Mission.Avoidance.{handle_simple_collision_avoidance}
use autopilot_manager.Types.{FlightMode, LandedState, landed_eq, mode_eq}
use autopilot_manager.Mission.Orders.{orders}
use autopilot_manager.Mission.Waypoint.{under_manual_control}
use autopilot_manager.Mission.Search.{landing_site_search_has_ended}
use autopilot_manager.Mission.Trajectory.{TrajectoryInputs, on_mavlink_trajectory_message}
use autopilot_manager.Mission.Callbacks.{
  on_position, on_health, on_position_velocity_ned, on_attitude_euler, GpsGlobalOrigin,
  on_landed_state, set_global_position_reference, flight_mode_callback, end_for_mode_change,
}
use autopilot_manager.Mission.Loop.{
  release_action, decide_by_input_type, decision_maker_round, Step, Reach,
}

abbrev pub uses_collision_avoidance : {W : Type 0} → Configuration W → Bool
uses_collision_avoidance c =
    not (str_eq c.decision_maker_input_type "SAFE_LANDING")
    && str_eq c.decision_maker_input_type "SIMPLE_COLLISION_AVOIDANCE"

-- A round that is configured for collision avoidance, within five seconds of the action that was taken at `since`.
abbrev pub IsWithin : {W : Type 0} → ℕ → Inputs W → Type 0
IsWithin since i =
    (uses_collision_avoidance i.config_update ≡ true) × ((i.system_now - since) / 1_000_000 < 5000)

module _ {W P : Type 0} ⦃d : Double W⦄ ⦃lp : LandingPlanner W P⦄ where
  pub by_collision_avoidance :
      (i : Inputs W) (m : Mission W P)
      → uses_collision_avoidance m.config ≡ true
      → decide_by_input_type i m ≡ handle_simple_collision_avoidance i m
  unfolding decide_by_input_type
  by_collision_avoidance i m u = elim (Bool-cases (str_eq t "SAFE_LANDING")) [
    | inl e ↦ absurd (false≢true (rw e at u))
    | inr e ↦ rw e (rw (rw e at u))
  ]
    where
      t : String
      t = m.config.decision_maker_input_type

  pub handle_quiet :
      (i : Inputs W) (m : Mission W P)
      → m.action_in_progress ≡ true
      → handle_simple_collision_avoidance i m ≡ m
  unfolding handle_simple_collision_avoidance
  handle_quiet i m h = ground arith

  -- No order to move the vehicle is given from `m` to `n`, and the action stays in progress.
  abbrev pub IsQuiet : Mission W P → Mission W P → Type 0
  IsQuiet m n =
      (orders n.log ≡ orders m.log) × (n.action_in_progress ≡ true) × (n.last_time ≡ m.last_time)

  -- Every round on the way is one of collision avoidance within five seconds; the callbacks are free.
  abbrev pub AllWithin : {m n : Mission W P} → ℕ → Reach m n → Type 0
  AllWithin since Reach.here = Unit
  AllWithin since (Reach.next r (Step.round i)) = IsWithin since i × AllWithin since r
  AllWithin since (Reach.next r _) = AllWithin since r

  round-IsQuiet :
      (i : Inputs W) (m : Mission W P)
      → m.action_in_progress ≡ true
      → IsWithin m.last_time i
      → IsQuiet m (decision_maker_round i m)
  unfolding decision_maker_round release_action
  round-IsQuiet i m h w =
      let m' = record m { config = i.config_update } in
      ground (arith, by_collision_avoidance i m' w.0, handle_quiet i m' h)

  trajectory-IsQuiet :
      (i : TrajectoryInputs W) (m : Mission W P)
      → m.action_in_progress ≡ true
      → IsQuiet m (on_mavlink_trajectory_message i m)
  unfolding on_mavlink_trajectory_message
  trajectory-IsQuiet i m h = ground arith

  end_reset-IsQuiet :
      (m : Mission W P)
      → m.action_in_progress ≡ true
      → let ended = end_for_mode_change m in
        IsQuiet m (record ended { landing_planner = lp.reset ended.landing_planner })
  unfolding landing_site_search_has_ended
  end_reset-IsQuiet m h =
      if_elim (λ e. IsQuiet m (record e { landing_planner = lp.reset e.landing_planner }))
        (lp.is_active m.landing_planner) (refl, h, refl) (refl, h, refl)

  mode-IsQuiet :
      (f : FlightMode) (m : Mission W P)
      → m.action_in_progress ≡ true
      → IsQuiet m (flight_mode_callback f m)
  unfolding flight_mode_callback
  mode-IsQuiet f m h =
      let n : Mission W P = record m { telemetry = record (m.telemetry) { flight_mode = f } } in
      let same : IsQuiet m m = (refl, h, refl) in
      let changed : IsQuiet m n = (refl, h, refl) in
      let ended = end_for_mode_change n in
      let restarted = record ended { landing_planner = lp.reset ended.landing_planner } in
      let reset : IsQuiet m restarted = end_reset-IsQuiet n h in
      let landed = m.telemetry.landed_state in
      let is_reset =
        ((landed_eq landed LandedState.on_ground || landed_eq landed LandedState.taking_off)
          && (mode_eq f FlightMode.mission || mode_eq f FlightMode.takeoff))
        || under_manual_control f in
      if_elim (IsQuiet m) (mode_eq f m.telemetry.flight_mode) {x = m}
        {y = if is_reset then restarted else n} same
        (if_elim (IsQuiet m) is_reset {x = restarted} {y = n} reset changed)

  origin-IsQuiet :
      (o : GpsGlobalOrigin W) (m : Mission W P)
      → m.action_in_progress ≡ true
      → IsQuiet m (set_global_position_reference o m)
  unfolding set_global_position_reference
  origin-IsQuiet (GpsGlobalOrigin.success lat lon alt) m h = ground arith
  origin-IsQuiet GpsGlobalOrigin.timeout m h = (refl, h, refl)
  origin-IsQuiet GpsGlobalOrigin.failure m h = (refl, h, refl)

  landed-IsQuiet :
      (l : LandedState) (m : Mission W P)
      → m.action_in_progress ≡ true
      → IsQuiet m (on_landed_state l m)
  unfolding on_landed_state
  landed-IsQuiet l m h = ground arith

  after-IsQuiet : (m n o : Mission W P) → IsQuiet m n → IsQuiet n o → IsQuiet m o
  after-IsQuiet m n o (a, _, c) (x, y, z) = (x ∙ a, y, z ∙ c)

  -- While an action of collision avoidance is in progress and up to five seconds after it, no order to move
  -- the vehicle is given and the action stays in progress, whatever the sensors say and whatever callbacks
  -- come between the rounds, where every round on the way is configured for collision avoidance.
  pub Reach-IsQuiet :
      {m n : Mission W P} (r : Reach m n)
      → m.action_in_progress ≡ true
      → AllWithin m.last_time r
      → IsQuiet m n
  unfolding on_landed_state on_position on_health on_position_velocity_ned on_attitude_euler
  Reach-IsQuiet Reach.here h w = (refl, h, refl)
  Reach-IsQuiet {m = m} (Reach.next {n = k} r (Step.round i)) h (w, ws) =
      let q = Reach-IsQuiet r h ws in
      after-IsQuiet m k (decision_maker_round i k) q (
        round-IsQuiet i k q.1
          (w.0, subst (λ t. (i.system_now - t) / 1_000_000 < 5000) (sym (q.2)) w.1))
  Reach-IsQuiet {m = m} (Reach.next {n = k} r (Step.trajectory i)) h ws =
      let q = Reach-IsQuiet r h ws in
      after-IsQuiet m k (on_mavlink_trajectory_message i k) q (trajectory-IsQuiet i k q.1)
  Reach-IsQuiet {m = m} (Reach.next {n = k} r (Step.mode f)) h ws =
      let q = Reach-IsQuiet r h ws in
      after-IsQuiet m k (flight_mode_callback f k) q (mode-IsQuiet f k q.1)
  Reach-IsQuiet {m = m} (Reach.next {n = k} r (Step.landed l)) h ws =
      let q = Reach-IsQuiet r h ws in
      after-IsQuiet m k (on_landed_state l k) q (landed-IsQuiet l k q.1)
  Reach-IsQuiet (Reach.next r (Step.position p)) h ws = Reach-IsQuiet r h ws
  Reach-IsQuiet (Reach.next r (Step.health g o)) h ws = Reach-IsQuiet r h ws
  Reach-IsQuiet (Reach.next r (Step.velocity p)) h ws = Reach-IsQuiet r h ws
  Reach-IsQuiet (Reach.next r (Step.attitude y)) h ws = Reach-IsQuiet r h ws
  Reach-IsQuiet {m = m} (Reach.next {n = k} r (Step.origin o)) h ws =
      let q = Reach-IsQuiet r h ws in
      after-IsQuiet m k (set_global_position_reference o k) q (origin-IsQuiet o k q.1)
