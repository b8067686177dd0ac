-- ===== src/Scheduler.antt =====
-- internal/scheduler: cron expressions, the time of the next run, and what a schedule's run starts
-- and records.
pub mod Cron
pub mod RoundTrip
pub mod Next
pub mod Search
pub mod Skipped
pub mod Fire
pub mod Dispatched
mod Examples
