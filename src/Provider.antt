-- ===== src/Provider.antt =====
-- internal/provider: the errors of providers, and the statistics of their calls.
pub mod Errors
pub mod Health
pub mod Retry
pub mod Score
pub mod Manager
mod Examples
mod CallExamples
mod ScoreExamples
