-- ===== src/Alerts.antt =====
-- Alerts: backend/app/models/alerts.py and backend/app/services/alerts.py.
pub mod Model
pub mod Dedup
pub mod Lifecycle
pub mod Run
pub mod Effect
pub mod History
pub mod Consistency
pub mod Identity
pub mod Counting
pub mod Repeats
pub mod Numbering
pub mod Machine
pub mod Queries
mod Examples
