-- ===== src/System.antt =====
-- src/AutopilotManager.cpp: the modules with the callbacks that `start_collision_avoidance_manager`,
-- `start_landing_manager` and `start_mission_manager` give them, and the program as a relation whose
-- steps are the modules' own, in any order. A step is taken to be atomic.
use autopilot_manager.Common.{ℕ, ◌==◌, String, ◌≡◌, Bool, Option, some, Double}
use autopilot_manager.Types.{FlightMode, LandedState, MapperState}
use autopilot_manager.Mission.State.{LandingPlanner, Mission, Inputs}
use autopilot_manager.Mission.Trajectory.{TrajectoryInputs, on_mavlink_trajectory_message}
use autopilot_manager.Mission.Callbacks.{
  Position, PositionVelocityNed, GpsGlobalOrigin, on_position, on_health, on_position_velocity_ned,
  on_landed_state, on_attitude_euler, set_global_position_reference, flight_mode_callback,
}
use autopilot_manager.Mission.Loop.{decision_maker_round}
use autopilot_manager.Landing.Health.{is_healthy}
use autopilot_manager.Landing.Mapper.{LandingMapper, Landing, mapper}
use autopilot_manager.Collision.{CollisionAvoidance, compute_distance_to_obstacle}
use autopilot_manager.Sensor.{
  Image, ImageDownsampler, SensorManager, health_code, health_check, handle_incoming_depth_image,
}
use autopilot_manager.Manager.Message.{Padding}
use autopilot_manager.Manager.Memory.{
  Members, collision_configuration, landing_configuration, mission_configuration,
}
use autopilot_manager.Manager.{
  Request, Reply, Manager, Modules, RoundInputs, handle_request, run_round,
}
pub mod Missions
pub mod Obstacle
pub mod Stale
pub mod Notice

pub record System (W P Q M D : Type 0) : Type 0 where
  pub manager : Manager W
  pub sensor : SensorManager W Q D
  pub collision : CollisionAvoidance W
  pub landing : Landing W M
  pub mission : Mission W P
  pub obstacle_avoidance_enabled : Bool
  pub heartbeats : ℕ

-- What a round of the decision maker reads from outside the program.
pub record Outside (W : Type 0) : Type 0 where
  pub system_now : ℕ
  pub ros_now : ℕ
  pub get_param_float : String → Option W
  pub global_from_local : W × W → W × W → W × W

-- A callback of MAVSDK to the mission manager.
pub data Event (W : Type 0) : Type 0 where
  mode : FlightMode → Event W
  landed : LandedState → Event W
  position : Position W → Event W
  health : Bool → Bool → Event W
  velocity : PositionVelocityNed W → Event W
  attitude : W → Event W
  origin : GpsGlobalOrigin W → Event W

module _ {W P : Type 0} ⦃d : Double W⦄ ⦃lp : LandingPlanner W P⦄ where
  unfoldable pub on_event : Event W → Mission W P → Mission W P
  on_event (Event.mode f) m = flight_mode_callback f m
  on_event (Event.landed l) m = on_landed_state l m
  on_event (Event.position p) m = on_position p m
  on_event (Event.health global home) m = on_health global home m
  on_event (Event.velocity v) m = on_position_velocity_ned v m
  on_event (Event.attitude yaw_deg) m = on_attitude_euler yaw_deg m
  on_event (Event.origin o) m = set_global_position_reference o m

module _ {W M : Type 0} where
  -- `computeLandingStateAtPositionXY` of the landing mapper is `site`.
  unfoldable pub get_landing_condition_state_at_position :
      (M → W → W → MapperState) → Landing W M → W → W → MapperState
  get_landing_condition_state_at_position site l x y = site l.landing_mapper x y

module _ {W P Q M D : Type 0} where
  -- The callbacks of the mission manager.
  unfoldable pub mission_inputs :
      (M → W → W → MapperState) → Outside W → System W P Q M D → Inputs W
  mission_inputs site o s = record {
    config_update = mission_configuration s.manager.members;
    system_now = o.system_now;
    ros_now = o.ros_now;
    landing_state = s.landing.state;
    height_above_obstacle = s.landing.height_above_obstacle;
    landing_state_at = get_landing_condition_state_at_position site s.landing;
    distance_to_obstacle = s.collision.depth;
    distance_to_obstacle_again = s.collision.depth;
    get_param_float = o.get_param_float;
    global_from_local = o.global_from_local;
  }

  -- What a round of the main loop reads of the modules, and what it writes back.
  unfoldable pub round_inputs : System W P Q M D → RoundInputs
  round_inputs s = record {
    should_be_enabled = s.mission.oa_enabled;
    safe_landing_enabled = s.manager.members.safe_landing_enabled;
    sm_healthy = health_code s.sensor.health_status == 0;
    lm_healthy = is_healthy s.landing.health;
    mm_healthy = s.mission.is_healthy;
  }

  unfoldable pub modules_of : System W P Q M D → Modules
  modules_of s = record {
    obstacle_avoidance_enabled = s.obstacle_avoidance_enabled;
    landing_oa_enabled = s.landing.oa_enabled;
    sensor_oa_enabled = s.sensor.oa_enabled;
    heartbeats = s.heartbeats;
  }

  unfoldable pub main_round : System W P Q M D → System W P Q M D
  unfolding round_inputs modules_of
  main_round s =
      let n = run_round (round_inputs s) (modules_of s) in
      let sensor = s.sensor in
      let landing = s.landing in
      record s {
        obstacle_avoidance_enabled = n.obstacle_avoidance_enabled;
        landing = record landing { oa_enabled = n.landing_oa_enabled };
        sensor = record sensor { oa_enabled = n.sensor_oa_enabled };
        heartbeats = n.heartbeats;
      }

module _ {W P Q M D : Type 0} ⦃d : Double W⦄ ⦃lp : LandingPlanner W P⦄ where
  unfoldable pub mission_round :
      (M → W → W → MapperState) → Outside W → System W P Q M D → System W P Q M D
  unfolding mission_inputs
  mission_round site o s = record s {
    mission = decision_maker_round (mission_inputs site o s) s.mission;
  }

  -- A trajectory message, for which the height is the landing manager's.
  unfoldable pub on_trajectory : TrajectoryInputs W → System W P Q M D → System W P Q M D
  on_trajectory i s = record s {
    mission =
        on_mavlink_trajectory_message
          (record i { height_above_obstacle = s.landing.height_above_obstacle }) s.mission;
  }

module _ {W P Q M D : Type 0} ⦃d : Double W⦄ where
  -- `none` where the code is undefined; `infinity` is that of `float`.
  unfoldable pub collision_round : W → System W P Q M D → Option (CollisionAvoidance W)
  collision_round infinity s =
      compute_distance_to_obstacle infinity (collision_configuration s.manager.members)
        s.sensor.downsampled_depth s.collision

module _ {W P Q M D : Type 0} ⦃d : Double W⦄ ⦃lm : LandingMapper W Q M⦄ where
  unfoldable pub landing_round : System W P Q M D → System W P Q M D
  landing_round s = record s {
    landing = mapper (landing_configuration s.manager.members) s.sensor.downsampled_depth s.landing;
  }

module _ {W P Q M D B : Type 0} ⦃ids : ImageDownsampler W B D⦄ where
  unfoldable pub receive_image :
      ℕ → Image B → Option ((W × W × W) × Q) → System W P Q M D → System W P Q M D
  receive_image now msg transform s = record s {
    sensor = handle_incoming_depth_image now msg transform s.sensor;
  }

module _ {W P Q M D B : Type 0} ⦃d : Double W⦄ ⦃lp : LandingPlanner W P⦄ ⦃lm : LandingMapper W Q M⦄
    (ids : ImageDownsampler W B D) (infinity : W) (site : M → W → W → MapperState) where
  -- A step of one module. Those that can fail have the result of a call that did not.
  pub data Step (s : System W P Q M D) : System W P Q M D → Type 0 where
    image :
        (now : ℕ) (msg : Image B) (transform : Option ((W × W × W) × Q))
        → Step s (receive_image ⦃ids = ids⦄ now msg transform s)
    sensors : (now : ℕ) → Step s (record s { sensor = health_check now s.sensor })
    collision :
        (c : CollisionAvoidance W)
        → collision_round infinity s ≡ some c
        → Step s (record s { collision = c })
    landing : Step s (landing_round s)
    decision : (o : Outside W) → Step s (mission_round site o s)
    event : (e : Event W) → Step s (record s { mission = on_event e s.mission })
    trajectory : (i : TrajectoryInputs W) → Step s (on_trajectory i s)
    main : Step s (main_round s)
    request :
        (opened renamed : Bool) (padding : Padding) (r : Request W) (n : Manager W)
        (reply : Option (Reply W))
        → handle_request opened renamed padding r s.manager ≡ some (n, reply)
        → Step s (record s { manager = n })

  pub data Reach (s : System W P Q M D) : System W P Q M D → Type 0 where
    here : Reach s s
    next : {t u : System W P Q M D} → Reach s t → Step t u → Reach s u
