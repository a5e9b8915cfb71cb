-- ===== src/Tests/OnProgram.antt =====
-- The command line, the start and the modules together at concrete inputs (src/main.cpp,
-- src/helpers/helpers.cpp and src/AutopilotManager.cpp).
use autopilot_manager.Common.{
  ℕ, zero, suc, ◌<◌, leb, arith, sym, ap, ◌∙◌, ◌≡◌, ◌≢◌, refl, Bool, true, false, none, some, List,
  [], ◌∷◌, ◌++◌, pos, String, atoi,
}
use mathlib.Core.Bool.{false≢true}
use autopilot_manager.Types.{LandedState, MapperState}
use autopilot_manager.Mission.Retry.{uses_collision_avoidance}
use autopilot_manager.Mission.State.{Command}
use autopilot_manager.Mission.Loop.{decision_maker_round, decide_by_input_type, release_action}
use autopilot_manager.Mission.Avoidance.{act_on_collision, handle_simple_collision_avoidance}
use autopilot_manager.Mission.Callbacks.{on_landed_state}
use autopilot_manager.Mission.Initial.{new_mission}
use autopilot_manager.Landing.Cloud.{DepthPixel, DepthImage}
use autopilot_manager.Landing.Health.{is_healthy, health_check, count_image}
use autopilot_manager.Landing.Parameters.{update_parameters}
use autopilot_manager.Landing.Mapper.{mapper, process_depth, process_image}
use autopilot_manager.Landing.Initial.{new_landing, init_parameters}
use autopilot_manager.Collision.{
  CollisionAvoidance, new_collision, is_pixel_valid, region, filter_pixels_to_roi, min_element,
  min_from, compute_distance_to_obstacle,
}
use autopilot_manager.Collision.Source.{IsDepthOf}
use autopilot_manager.Sensor.{set_downsampler, store_image, handle_incoming_depth_image}
use autopilot_manager.Sensor.Initial.{new_sensor}
use autopilot_manager.Manager.{initial_provisioning}
use autopilot_manager.Manager.Memory.{
  landing_configuration, mission_configuration, collision_configuration,
}
use autopilot_manager.CommandLine.{Opt, Parsed, read_option, parse_options, parse_argv}
use autopilot_manager.CommandLine.LastWins.{parse_argv_by_last}
use autopilot_manager.System.{
  System, Outside, Event, on_event, mission_round, receive_image, collision_round, landing_round,
  main_round, Step, Reach,
}
use autopilot_manager.System.Notice.{landing_notices}
use autopilot_manager.System.Obstacle.{Held, avoidance_has_cause}
use autopilot_manager.System.Stale.{is_enabled, distance_outlives_images}
use autopilot_manager.Startup.{
  start_modules, Phase, Process, ProcessStep, ProcessReach, launched, default_command_line,
}
use autopilot_manager.Startup.Blocked.{main_never_serves, no_waypoint_without_search}
use autopilot_manager.Tests.Fixtures.{
  Milli, milli, milli_nan, metres, Phase as Search, phases, phases_live,
}
use autopilot_manager.Tests.Received.{
  avoiding, landing_mapper, downsampler, surroundings, itself, two_events, system, constructed,
  site, image, transform, received,
}

abbrev two_ports : List Opt
two_ports =
    record { c = b'm'; optarg = "14590" }
    ∷ record { c = b'c'; optarg = "/etc/apm.conf" }
    ∷ record { c = b'?'; optarg = "" }
    ∷ record { c = b'm'; optarg = "14600" }
    ∷ []

-- The port that a negative number is taken for.
negative_port :
    parse_argv (record { c = b'm'; optarg = "-5" } ∷ []) default_command_line
    ≡ some (Parsed.parsed (record default_command_line { mavlink_port = 4_294_967_291 }))
unfolding parse_argv parse_options read_option atoi
negative_port = refl

parse_argv_by_last_example :
    (parse_argv two_ports default_command_line
      ≡ some (
          Parsed.parsed (record {
            mavlink_port = 14600;
            path_to_apm_config_file = "/etc/apm.conf";
            path_to_custom_action_config_file =
                default_command_line.path_to_custom_action_config_file;
          })))
    × ((help : String)
        → parse_argv (two_ports ++ record { c = b'h'; optarg = help } ∷ []) default_command_line
          ≡ some (Parsed.exits (pos 0)))
unfolding atoi
parse_argv_by_last_example = parse_argv_by_last two_ports [] default_command_line refl

abbrev found : CollisionAvoidance Milli
found =
    let before = system.collision in record before { depth = metres 3; published = metres 3 ∷ [] }

found_distance : collision_round none received ≡ some found
unfolding collision_round compute_distance_to_obstacle region filter_pixels_to_roi is_pixel_valid
    min_element min_from receive_image handle_incoming_depth_image set_downsampler store_image
    start_modules new_collision new_sensor collision_configuration
found_distance = refl

abbrev measured : System Milli Search Unit Unit Bool
measured = record received { collision = found }

abbrev flying : System Milli Search Unit Unit Bool
flying = record measured { mission = on_event (Event.landed LandedState.in_air) measured.mission }

flies : Reach downsampler none site system flying
flies =
    Reach.next
      (Reach.next (Reach.next Reach.here (Step.image 9 image (some transform)))
        (Step.collision found found_distance))
      (Step.event (Event.landed LandedState.in_air))

abbrev outside : Outside Milli
outside = record {
  system_now = 1_000_000_000;
  ros_now = 1_000_000_000;
  get_param_float = λ name. none;
  global_from_local = λ origin p. p;
}

abbrev last_is_hold : List (Command Milli) → Bool
last_is_hold (Command.hold ∷ _) = true
last_is_hold _ = false

-- The round gives the order to hold, and the log had none.
holds :
    (last_is_hold (mission_round site outside flying).mission.log ≡ true)
    × (last_is_hold flying.mission.log ≡ false)
unfolding mission_round decision_maker_round decide_by_input_type release_action
    handle_simple_collision_avoidance act_on_collision on_event on_landed_state start_modules
    new_mission receive_image mission_configuration
holds = (refl, refl)

gives_command : (mission_round site outside flying).mission.log ≢ flying.mission.log
gives_command e = false≢true (sym holds.1 ∙ ap last_is_hold (sym e) ∙ holds.0)

input : uses_collision_avoidance (mission_configuration flying.manager.members) ≡ true
unfolding mission_configuration start_modules receive_image
input = refl

no_distance : system.collision.depth ≡ none
unfolding start_modules new_collision
no_distance = refl

avoidance_has_cause_example :
    (i : DepthImage Milli Unit) × (p : DepthPixel Milli) × Held downsampler none site system flying
      i
    × IsDepthOf system.collision.roi_settings i flying.collision.depth p
    × (milli.is_finite p.depth ≡ true)
    × (milli.le p.depth flying.manager.members.simple_collision_avoid_distance_threshold ≡ true)
avoidance_has_cause_example =
    avoidance_has_cause downsampler none site outside refl refl no_distance flies input
      gives_command

-- From the image on, two steps without one.
abbrev later : Reach downsampler none site received flying
later =
    Reach.next (Reach.next Reach.here (Step.collision found found_distance))
      (Step.event (Event.landed LandedState.in_air))

enabled : is_enabled (collision_configuration received.manager.members) ≡ true
unfolding collision_configuration start_modules receive_image
enabled = refl

distance_outlives_images_example :
    (k : CollisionAvoidance Milli) × (collision_round none flying ≡ some k)
    × (k.depth ≡ found.depth)
distance_outlives_images_example =
    distance_outlives_images downsampler none site later found refl enabled enabled found_distance

-- The mapper runs, and has checked the image.
abbrev watching : System Milli Search Unit Unit Bool
watching =
    let members = received.manager.members in
    let manager = received.manager in
    let landing = received.landing in
    let health = landing.health in
    record received {
      manager = record manager { members = record members { safe_landing_enabled = 1 } };
      landing = record landing {
        oa_enabled = true;
        health = record health { last_timestamp = pos 250 };
      };
    }

abbrev landings : ℕ → System Milli Search Unit Unit Bool
landings zero = watching
landings (suc n) = landing_round (landings n)

abbrev watches : (n : ℕ) → Reach downsampler none site watching (landings n)
watches zero = Reach.here
watches (suc n) = Reach.next (watches n) Step.landing

abbrev watched : DepthImage Milli Unit
watched = record {
  depth_pixel_array = record { x = metres 32; y = metres 24; depth = metres 3 } ∷ [];
  rw_pixels = 64;
  rh_pixels = 48;
  position = (metres 0, metres 0, metres 0);
  orientation = tt;
  timestamp_ns = pos 250;
}

landing_notices_example :
    (is_healthy (landings 51).landing.health ≡ false)
    × (leb 51 50 ≡ false → (landings 51).landing.state ≡ MapperState.unhealthy)
unfolding landing_round mapper landing_configuration process_depth process_image health_check
    count_image receive_image handle_incoming_depth_image set_downsampler store_image start_modules
    new_sensor new_landing update_parameters init_parameters
landing_notices_example =
    landing_notices downsampler none site 250 watched (watches 51) refl refl refl refl refl refl
      (omega arith)

-- The process after the image and a round of the main loop.
abbrev process : Process Milli Search Unit Unit Bool
process = record { system = main_round received; phase = Phase.running; interrupt_received = false }

proceeds : ProcessReach downsampler none site (launched system) process
proceeds =
    ProcessReach.next
      (ProcessReach.next ProcessReach.here
        (ProcessStep.modules received (Step.image 9 image (some transform)) refl (λ e. cc)))
      (ProcessStep.round refl refl)

main_never_serves_example :
    (process.phase ≡ Phase.running)
    × (process.interrupt_received ≡ false)
    × (initial_provisioning avoiding ≡ some process.system.manager)
main_never_serves_example =
    main_never_serves downsampler none site itself true two_events surroundings avoiding constructed
      proceeds

no_waypoint_without_search_example :
    let mission = process.system.mission in
    (phases.is_active mission.landing_planner ≡ false → milli.is_finite mission.new_x ≡ false)
    × (mission.is_stationary_debounce_counter < 10)
no_waypoint_without_search_example =
    no_waypoint_without_search downsampler none site itself true two_events surroundings avoiding
      milli_nan phases_live constructed proceeds
