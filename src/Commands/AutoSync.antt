-- ===== src/Commands/AutoSync.antt =====
-- internal/commands/autosync.go: auto-sync is disabled while a pull request holds an application, and
-- restored when it lets go.
pub mod Disable
pub mod Restore
pub mod Parents
pub mod Safety
pub mod RoundTrip
