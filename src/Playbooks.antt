-- ===== src/Playbooks.antt =====
-- SOAR playbooks: backend/app/models/playbooks.py, backend/app/playbooks/ and
-- backend/app/services/playbooks.py.
pub mod Model
pub mod Gate
pub mod Progress
pub mod Engine
pub mod Service
pub mod Approvals
pub mod Install
pub mod Run
pub mod Turns
pub mod Guards
pub mod Underway
pub mod Kept
pub mod Guarded
pub mod Reached
pub mod DryRun
pub mod Settles
pub mod Targets
pub mod Actions
pub mod Registry
pub mod Confined
mod Examples
