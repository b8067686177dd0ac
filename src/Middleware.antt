-- ===== src/Middleware.antt =====
-- internal/api/middleware/ratelimit.go: the guards that stand before the request handlers.
pub mod RateLimit
pub mod CircuitBreaker
pub mod SyncDedup
