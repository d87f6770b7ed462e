-- ===== src/Incidents.antt =====
-- Incidents: backend/app/models/incidents.py, backend/app/services/incidents.py and the guards of
-- backend/app/api/incidents.py.
pub mod Model
pub mod Links
pub mod Opening
pub mod Lifecycle
pub mod Work
pub mod Run
pub mod Writes
pub mod Effect
pub mod Frame
pub mod History
pub mod Induction
pub mod Consistency
pub mod Reached
pub mod Timeline
pub mod Ownership
pub mod Owned
pub mod Queries
pub mod Evidence
mod Examples
