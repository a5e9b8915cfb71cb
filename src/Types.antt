-- ===== src/Types.antt =====
-- Enumerations of MAVSDK's telemetry plugin and of the landing mapper, which several modules read
-- (src/modules/mission_manager/MissionManager.cpp, src/modules/landing_manager/LandingManager.cpp).
-- The enumerators that the code names have a constructor; `other` stands for each further one.
use autopilot_manager.Common.{ℕ, ◌+◌, ◌==◌, Bool}

pub data FlightMode : Type 0 where
  unknown mission takeoff land return_to_launch : FlightMode
  manual altctl posctl acro stabilized rattitude : FlightMode
  other : ℕ → FlightMode

pub data LandedState : Type 0 where
  unknown on_ground in_air taking_off landing : LandedState

-- `landing_mapper::eLandingMapperState`
pub data MapperState : Type 0 where
  unknown unhealthy can_not_land can_land close_to_ground : MapperState
  other : ℕ → MapperState

pub data StatusTextType : Type 0 where
  info warning error alert : StatusTextType

-- `==` of the enumerations, by the number of the enumerator.
abbrev pub mode_code : FlightMode → ℕ
mode_code FlightMode.unknown = 0
mode_code FlightMode.mission = 1
mode_code FlightMode.takeoff = 2
mode_code FlightMode.land = 3
mode_code FlightMode.return_to_launch = 4
mode_code FlightMode.manual = 5
mode_code FlightMode.altctl = 6
mode_code FlightMode.posctl = 7
mode_code FlightMode.acro = 8
mode_code FlightMode.stabilized = 9
mode_code FlightMode.rattitude = 10
mode_code (FlightMode.other n) = 11 + n

abbrev pub landed_code : LandedState → ℕ
landed_code LandedState.unknown = 0
landed_code LandedState.on_ground = 1
landed_code LandedState.in_air = 2
landed_code LandedState.taking_off = 3
landed_code LandedState.landing = 4

abbrev pub mapper_code : MapperState → ℕ
mapper_code MapperState.unknown = 0
mapper_code MapperState.unhealthy = 1
mapper_code MapperState.can_not_land = 2
mapper_code MapperState.can_land = 3
mapper_code MapperState.close_to_ground = 4
mapper_code (MapperState.other n) = 5 + n

abbrev pub mode_eq : FlightMode → FlightMode → Bool
mode_eq a b = mode_code a == mode_code b

abbrev pub landed_eq : LandedState → LandedState → Bool
landed_eq a b = landed_code a == landed_code b

abbrev pub mapper_eq : MapperState → MapperState → Bool
mapper_eq a b = mapper_code a == mapper_code b
