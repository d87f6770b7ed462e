-- ===== src/Correlation.antt =====
-- Correlation: backend/app/correlation.
pub mod Schema
pub mod Time
pub mod State
pub mod Completion
pub mod Selection
pub mod Chain
pub mod Evaluation
pub mod Order
pub mod Membership
pub mod Claims
pub mod Windows
pub mod Process
pub mod Frames
pub mod Inputs
pub mod Grafts
mod Examples
