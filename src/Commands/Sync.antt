-- ===== src/Commands/Sync.antt =====
-- internal/commands/sync.go: the sync command.
pub mod Requirements
pub mod Targets
pub mod Results
pub mod Tracker
pub mod Apply
pub mod Execute
pub mod PartSafety
pub mod Safety
pub mod Parents
pub mod Partition
pub mod Gate
