-- ===== src/Commands.antt =====
-- internal/commands: the commands of a comment, and what they do to the locks.
pub mod Command
pub mod Parser
pub mod Numbers
pub mod Tokens
pub mod Flags
pub mod Trim
pub mod RoundTrip
pub mod Unlock
pub mod Release
pub mod Foreign
pub mod AutoSync
pub mod TargetRevision
pub mod UnlockAll
pub mod DisableLocks
pub mod Rollback
pub mod ReleaseSafety
pub mod RollbackSafety
pub mod Sync
pub mod Plan
pub mod Help
pub mod Execute
pub mod UnlockSafety
pub mod Exclusion
pub mod Turns
pub mod Detect
