-- ===== src/Locking.antt =====
-- internal/lock: the lock manager over Redis. Its methods are defined in the modules below; what
-- they guarantee is proved beside them.
pub mod Keys
pub mod Manager
pub mod Reads
pub mod Deletes
pub mod Grants
pub mod Index
pub mod Holders
pub mod AutoSync
pub mod Policies
pub mod Listing
pub mod Plans
pub mod Outcomes
pub mod Race
pub mod Respects
pub mod Steps
pub mod PolicySteps
