-- ===== src/Server.antt =====
-- internal/server: what the HTTP server decides by itself.
pub mod RateLimiter
pub mod Window
pub mod Bounds
