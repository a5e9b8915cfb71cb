-- ===== src/Tests.antt =====
-- Runs of the model at concrete inputs, and an instance of each theorem that has hypotheses.
pub mod Fixtures
mod Laws
mod OnMission
mod OnTimeSync
mod OnManager
mod OnDepth
mod OnAction
mod OnSystem
mod Received
mod OnProgram
