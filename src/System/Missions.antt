-- ===== src/System/Missions.antt =====
-- The mission manager within the program (src/AutopilotManager.cpp): what is proved of it alone holds
-- of it there.
use autopilot_manager.Common.{Double}
use autopilot_manager.Types.{MapperState}
use autopilot_manager.Mission.State.{LandingPlanner, Mission}
use autopilot_manager.Mission.Loop.{Step as MissionStep, Reach as MissionReach}
use autopilot_manager.Landing.Mapper.{LandingMapper}
use autopilot_manager.Sensor.{ImageDownsampler}
use autopilot_manager.System.{
  System, Event, on_event, mission_inputs, mission_round, on_trajectory, landing_round, main_round,
  receive_image, Step, Reach,
}

module _ {W P : Type 0} ⦃d : Double W⦄ ⦃lp : LandingPlanner W P⦄ where
  event_step : (e : Event W) (m : Mission W P) → MissionStep m (on_event e m)
  unfolding on_event
  event_step (Event.mode f) m = MissionStep.mode f
  event_step (Event.landed l) m = MissionStep.landed l
  event_step (Event.position p) m = MissionStep.position p
  event_step (Event.health global home) m = MissionStep.health global home
  event_step (Event.velocity v) m = MissionStep.velocity v
  event_step (Event.attitude yaw_deg) m = MissionStep.attitude yaw_deg
  event_step (Event.origin o) m = MissionStep.origin o

module _ {W P Q M D B : Type 0} ⦃d : Double W⦄ ⦃lp : LandingPlanner W P⦄ ⦃lm : LandingMapper W Q M⦄
    (ids : ImageDownsampler W B D) (infinity : W) (site : M → W → W → MapperState) where
  mission_follows-step :
      {m : Mission W P} {s t : System W P Q M D}
      → MissionReach m s.mission
      → Step ids infinity site s t
      → MissionReach m t.mission
  unfolding mission_round on_trajectory landing_round main_round receive_image
  mission_follows-step h (Step.image now msg transform) = h
  mission_follows-step h (Step.sensors now) = h
  mission_follows-step h (Step.collision c e) = h
  mission_follows-step h Step.landing = h
  mission_follows-step {s = s} h (Step.decision o) =
      MissionReach.next h (MissionStep.round (mission_inputs site o s))
  mission_follows-step {s = s} h (Step.event e) = MissionReach.next h (event_step e s.mission)
  mission_follows-step {s = s} h (Step.trajectory i) = MissionReach.next h (
      MissionStep.trajectory (record i { height_above_obstacle = s.landing.height_above_obstacle }))
  mission_follows-step h Step.main = h
  mission_follows-step h (Step.request opened renamed padding r n reply e) = h

  -- Whatever steps the program makes, its mission manager makes steps of its own relation only, from
  -- its first state to its last.
  pub mission_follows :
      {s t : System W P Q M D} → Reach ids infinity site s t → MissionReach s.mission t.mission
  mission_follows Reach.here = MissionReach.here
  mission_follows (Reach.next r st) = mission_follows-step (mission_follows r) st
