-- ===== src/Commands/Plan.antt =====
-- internal/commands/plan.go: the plan command.
pub mod Render
pub mod Reclaim
pub mod Apply
pub mod Execute
pub mod Safety
pub mod Whole
