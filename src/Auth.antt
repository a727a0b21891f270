-- ===== src/Auth.antt =====
-- internal/auth: sessions and roles.
pub mod Sessions
pub mod States
pub mod Expiry
pub mod Roles
pub mod Access
pub mod Domain
