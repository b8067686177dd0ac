-- ===== src/Task.antt =====
-- The task engine, internal/task: the queue in Redis, retry delays, throttling, the engine itself.
pub mod Model
pub mod Redis
pub mod Queue
pub mod Backoff
pub mod Throttle
pub mod Repository
pub mod Payload
pub mod Bulk
pub mod Engine
pub mod Recovery
mod Examples
