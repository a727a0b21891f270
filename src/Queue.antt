-- ===== src/Queue.antt =====
-- internal/queue: the tasks of webhooks.
pub mod Handler
pub mod Dispatch
