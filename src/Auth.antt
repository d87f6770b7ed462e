-- ===== src/Auth.antt =====
-- Logging in and refreshing a session: backend/app/services/auth.py and backend/app/models/identity.py.
pub mod Model
pub mod Login
pub mod Sessions
pub mod Run
pub mod Rotation
pub mod Permissions
pub mod Tiers
mod Examples
