-- ===== src/Mission.antt =====
-- src/modules/mission_manager/MissionManager.cpp, a part of the class in each child module.
pub mod State
pub mod Waypoint
pub mod Search
pub mod Trigger
pub mod SafeLanding
pub mod Avoidance
pub mod Trajectory
pub mod Callbacks
pub mod Loop
pub mod Invariant
pub mod Initial
pub mod Orders
pub mod Verdict
pub mod Debounce
pub mod Ending
pub mod Refusal
pub mod Start
pub mod Retry
pub mod Near
pub mod Answers
pub mod Collision
pub mod Arrival
