-- ===== src/Lib.antt =====
-- The autopilot manager: a companion-computer program that watches over a vehicle's landing and its
-- distance to obstacles, and gives it orders through MAVSDK.
--
-- The program is a main object that starts four modules, each in its thread. A depth image passes from
-- the sensor manager to the collision avoidance, which keeps the distance to the nearest obstacle, and
-- to the landing manager, which keeps what the landing mapper says of the ground. The mission manager
-- polls both and decides. A configuration is set and read over D-Bus, and each module copies a part.
--
-- Where each part is modelled:
--   src/modules/mission_manager/MissionManager.cpp: Mission.State has the class's members as the record
--     `Mission`, what a round reads as `Inputs`, and each order, status text and log line as a `Command`
--     in a log. Mission.Waypoint has the waypoints and the debounced stillness, Mission.Trigger
--     handle_safe_landing's trigger and its actions, Mission.Search update_landing_site_search,
--     Mission.SafeLanding the rest of handle_safe_landing, Mission.Avoidance
--     handle_simple_collision_avoidance, Mission.Trajectory the filter of trajectory messages,
--     Mission.Callbacks the telemetry, and Mission.Loop a round of decision_maker_run with the steps
--     that interleave with it. A callback and a round are taken to be atomic.
--   src/modules/mission_manager/CustomActionHandler.cpp: CustomAction has the handler's members and the
--     processing of an action, stage by stage, with its waits; CustomAction.Arrivals the callbacks of run
--     and a turn of new_action_check, CustomAction.Report the thread of the progress report. The other
--     children are theorems.
--   src/modules/landing_manager/LandingManager.cpp: Landing.Health has healthCheck with its static
--     counters, Landing.Parameters updateParameters, Landing.Cloud the loop over pixels and
--     Landing.Mapper one call of mapper.
--   src/modules/landing_manager/MapVisualizer.cpp: MapVisualizer, with visualizeResult of the landing
--     manager.
--   src/modules/collision_avoidance_manager/CollisionAvoidanceManager.cpp: Collision.
--   src/modules/sensor_manager/SensorManager.cpp: Sensor, the reception of depth images and the health
--     check, and Sensor.Streams, the callbacks of run and of the camera's information.
--     src/modules/sensor_manager/TimeSync.cpp: TimeSync.
--   src/AutopilotManager.cpp: Manager.Memory has the members with SetConfiguration, GetConfiguration
--     and the modules' copies, Manager HandleRequest and a round of run. System has the modules with the
--     callbacks that connect them, and the program as a relation of their steps. Startup has start, with
--     the constructors of the modules in Mission.Initial, Landing.Initial, Sensor.Initial and Collision.
--   src/main.cpp and src/helpers/helpers.cpp: CommandLine has parse_argv over what getopt_long returns,
--     and Startup main, as a relation of the process from the constructor of the autopilot manager on.
--   src/AutopilotManagerConfig.cpp: Manager.Config has the members, Manager.Message the messages,
--     Manager.File WriteToFile and InitFromFile on the text of the file, with `none` where std::stoi or
--     std::stod throws. Manager.Refinement compares the requests with a specification that holds one
--     configuration.
--   src/DbusInterface.cpp: DbusInterface, the constructor with the loop of Register, and the dispatch of
--     messages.
--
-- Numbers: a `double` is a type with the operations that the code uses, `Double` of Common.Float; a
-- law of IEEE 754 is a named hypothesis where one is needed, and Tests.Fixtures has an instance. An
-- integer that can wrap is its bit pattern, with the remainder written out. Times are natural numbers
-- of nanoseconds. The loops run over lists or count down, by structural recursion. A loop that waits
-- for the outside, such as Register or the wait for a landing, runs over the answers that it gets, and
-- its result is `none` while it goes on. The printing of an integer has a fuel that is above the
-- number, which each division by ten makes smaller.
--
-- Parameters: the landing planner, the landing mapper, the image downsampler, the projection between
-- global and local positions, the look-up of transforms and getopt_long are libraries that are not in
-- the repository. What the code relies on of the planner is `IsLandingPlanner` of Mission.State.
--
-- What the code relies on of the printing and reading of a `double` is `IsPrinter` of
-- Manager.File.Lines, of the exactness of small numbers `IsPercent` of CustomAction.Progress. MAVSDK's
-- custom action plugin and the answers of the bus are inputs, as are what dbus_message_get_args has stored
-- before an error and the bytes of padding that are not initialised.
--
-- Not modelled: the set-up of subscriptions, threads and of the handler of D-Bus messages, and the text
-- of console output.
pub mod Common
pub mod Types
pub mod Mission
pub mod CustomAction
pub mod Landing
pub mod MapVisualizer
pub mod Collision
pub mod Sensor
pub mod TimeSync
pub mod Manager
pub mod System
pub mod DbusInterface
pub mod CommandLine
pub mod Startup
pub mod Tests
