-- ===== src/Landing.antt =====
-- src/modules/landing_manager/LandingManager.cpp, a part of the class in each child module.
pub mod Health
pub mod Parameters
pub mod Cloud
pub mod Mapper
pub mod Initial
pub mod NullImages
pub mod Points
pub mod States
