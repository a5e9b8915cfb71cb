-- ===== src/Startup.antt =====
-- src/main.cpp and src/AutopilotManager.cpp: from the command line to the main loop. The constructor of
-- the autopilot manager provisions it and calls `start`, which calls `run`.
use autopilot_manager.Common.{
  ℕ, ℤ, pos, String, ◌≡◌, ◌≢◌, Bool, true, false, not, Option, none, some, List, [], ◌∷◌, Double,
  append, show_int, if◌then◌else◌,
}
use autopilot_manager.Types.{MapperState}
use autopilot_manager.Mission.State.{LandingPlanner, Mission}
use autopilot_manager.Mission.Initial.{new_mission}
use autopilot_manager.Landing.Mapper.{LandingMapper}
use autopilot_manager.Landing.Initial.{MapperParameter, NodeParameters, new_landing}
use autopilot_manager.Collision.{new_collision}
use autopilot_manager.Sensor.{Intrinsics, ImageDownsampler}
use autopilot_manager.Sensor.Initial.{StaticTransform, new_sensor, set_camera_static_tf}
use autopilot_manager.Manager.{Manager, initial_provisioning}
use autopilot_manager.Manager.Memory.{landing_configuration}
use autopilot_manager.CommandLine.{CommandLine}
use autopilot_manager.DbusInterface.{NameReply, Registration, connect}
use autopilot_manager.System.{System, main_round, Step}
pub mod Blocked
pub mod Discovery

-- `default_command_line` is what the variables of `main` are initialised with.
abbrev pub default_command_line : CommandLine
default_command_line = record {
  mavlink_port = 14590;
  path_to_apm_config_file =
      "/shared_container_dir/autopilot-manager/data/config/autopilot_manager.conf";
  path_to_custom_action_config_file =
      "/shared_container_dir/autopilot-manager/data/custom_action/custom_action.json";
}

-- The URL of the connection.
unfoldable pub connection_url : CommandLine → String
connection_url l = append "udp://:" (show_int (pos l.mavlink_port))

module _ {S : Type 0} (has_autopilot : S → Bool) where
  -- `std::find_if` over the systems that MAVSDK knows of.
  unfoldable pub find_system : List S → Option S
  find_system [] = none
  find_system (s ∷ systems) =
      let rest = find_system systems in if has_autopilot s then some s else rest

  -- The callback for new systems sets the promise at the first call in which it finds a system, and
  -- unsubscribes; `events` are the calls of the ten seconds that are waited for.
  unfoldable pub discover : List (List S) → Option S
  discover [] = none
  discover (systems ∷ events) = elim (find_system systems) [
    | some s ↦ some s
    | none ↦ discover events
  ]

-- What the modules' constructors take from outside: the clock, the initial intrinsics, the landing
-- planner's initial state, memory that is not initialised, the node's parameters, the landing mapper's
-- constructor, and tf2's quaternion.
pub record Surroundings (W P Q M D : Type 0) : Type 0 where
  pub now : ℕ
  pub intrinsics : Intrinsics
  pub planner : P
  pub memory : Mission W P
  pub node : NodeParameters W
  pub new_mapper : MapperParameter W → M
  pub normalized_rpy : W → W → W → W × W × W × W

-- The process exits with a status, or the main loop runs.
pub data Started (A : Type 0) : Type 0 where
  exits : ℤ → Started A
  runs : A → Started A

module _ {W P Q M D : Type 0} ⦃d : Double W⦄ where
  -- `start_sensor_manager`, `start_collision_avoidance_manager`, `start_landing_manager` and
  -- `start_mission_manager`, with the transform that the first sends.
  unfoldable pub start_modules :
      Surroundings W P Q M D → Manager W → System W P Q M D × StaticTransform W
  start_modules u m = (
    record {
      manager = m;
      sensor = new_sensor u.now u.intrinsics;
      collision = new_collision;
      landing = new_landing u.node u.new_mapper (landing_configuration m.members);
      mission = new_mission u.now u.planner u.memory;
      obstacle_avoidance_enabled = false;
      heartbeats = 0;
    },
    set_camera_static_tf u.normalized_rpy u.now m.members.camera_offset_x m.members.camera_offset_y
        m.members.camera_yaw,
  )

  -- `start`, up to its call of `run`.
  unfoldable pub start :
      {S : Type 0} (has_autopilot : S → Bool) (connected : Bool) (events : List (List S))
      → Surroundings W P Q M D
      → Manager W
      → Started (System W P Q M D)
  start has_autopilot connected events u m =
      let running = Started.runs (start_modules u m).0 in
      if connected
      then elim (discover has_autopilot events) [ none ↦ Started.exits (pos 1) | some _ ↦ running ]
      else Started.exits (pos 1)

  -- The constructor, up to the loop of `run`; `none` where the reading of the file throws.
  unfoldable pub construct :
      {S : Type 0} (has_autopilot : S → Bool) (connected : Bool) (events : List (List S))
      → Surroundings W P Q M D
      → Manager W
      → Option (Started (System W P Q M D))
  construct has_autopilot connected events u m = elim (initial_provisioning m) [
    | none ↦ none
    | some n ↦ some (start has_autopilot connected events u n)
  ]

-- Where `main` is: in the loop of `run`, which the constructor called, behind the constructor, in the
-- main loop of GLib with the service registered, behind that, and behind the destructor.
pub data Phase : Type 0 where
  running constructed serving finished destroyed : Phase

pub record Process (W P Q M D : Type 0) : Type 0 where
  pub system : System W P Q M D
  pub phase : Phase
  pub interrupt_received : Bool

module _ {W P Q M D B : Type 0} ⦃d : Double W⦄ ⦃lp : LandingPlanner W P⦄ ⦃lm : LandingMapper W Q M⦄
    (ids : ImageDownsampler W B D) (infinity : W) (site : M → W → W → MapperState) where
  -- A step of a thread or callback of the modules, which `main` takes no part in.
  abbrev pub is_of_modules : {s t : System W P Q M D} → Step ids infinity site s t → Bool
  is_of_modules Step.main = false
  is_of_modules (Step.request opened renamed padding r n reply e) = false
  is_of_modules _ = true

  abbrev pub is_request : {s t : System W P Q M D} → Step ids infinity site s t → Bool
  is_request (Step.request opened renamed padding r n reply e) = true
  is_request _ = false

  -- A step of the process; an exception ends it. The requests come through the main loop of GLib, and the destructor alone
  -- sets `_interrupt_received`.
  pub data ProcessStep (p : Process W P Q M D) : Process W P Q M D → Type 0 where
    modules :
        (t : System W P Q M D) (st : Step ids infinity site p.system t)
        → is_of_modules st ≡ true
        → p.phase ≢ Phase.destroyed
        → ProcessStep p (record p { system = t })
    round :
        p.phase ≡ Phase.running
        → p.interrupt_received ≡ false
        → ProcessStep p (record p { system = main_round p.system })
    leave :
        p.phase ≡ Phase.running
        → p.interrupt_received ≡ true
        → ProcessStep p (record p { phase = Phase.constructed })
    registered :
        (connected object_registered : Bool) (replies : List NameReply)
        → p.phase ≡ Phase.constructed
        → connect connected object_registered replies ≡ some Registration.registered
        → ProcessStep p (record p { phase = Phase.serving })
    request :
        (t : System W P Q M D) (st : Step ids infinity site p.system t)
        → is_request st ≡ true
        → p.phase ≡ Phase.serving
        → ProcessStep p (record p { system = t })
    quit : p.phase ≡ Phase.serving → ProcessStep p (record p { phase = Phase.finished })
    destroy :
        p.phase ≡ Phase.finished
        → ProcessStep p (record p { phase = Phase.destroyed; interrupt_received = true })

  pub data ProcessReach (p : Process W P Q M D) : Process W P Q M D → Type 0 where
    here : ProcessReach p p
    next : {q r : Process W P Q M D} → ProcessReach p q → ProcessStep q r → ProcessReach p r

-- The process when `start` calls `run`.
abbrev pub launched : {W P Q M D : Type 0} → System W P Q M D → Process W P Q M D
launched s = record { system = s; phase = Phase.running; interrupt_received = false }
