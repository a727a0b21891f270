-- ===== src/Tests.antt =====
-- Runs of the definitions at concrete inputs, over a server in memory.
pub mod Store
pub mod Codec
mod Locks
mod Limits
mod Comments
mod Tasks
mod Unlocks
mod Files
mod Accounts
mod Commands
mod Policies
mod Detect
