-- ===== src/Vcs.antt =====
-- internal/vcs: what the providers' clients share.
pub mod Helpers
pub mod Paths
pub mod Filter
