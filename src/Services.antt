-- ===== src/Services.antt =====
-- internal/commands: what an executor works with, and the world that it changes.
pub mod World
pub mod Safe
pub mod Replies
pub mod Argo
pub mod Provider
pub mod Config
pub mod Executor
pub mod Planner
