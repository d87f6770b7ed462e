-- ===== src/Detection.antt =====
-- Detection: backend/app/detection.
pub mod Value
pub mod Schema
pub mod Paths
pub mod Operators
pub mod Conditions
pub mod Evaluation
pub mod Suppression
pub mod Engine
pub mod Firing
pub mod Raising
pub mod Examples
