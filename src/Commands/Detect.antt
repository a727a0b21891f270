-- ===== src/Commands/Detect.antt =====
-- internal/commands/executor.go: which applications the files of a pull request touch.
pub mod Paths
pub mod Match
pub mod Mappings
pub mod Affected
pub mod Listing
