-- ===== src/Model.antt =====
-- internal/models: the data that the parts share.
pub mod Application
pub mod Lock
pub mod Sync
pub mod Diff
pub mod Event
pub mod User
