-- ===== src/Runner.antt =====
-- The browser runner: jobs, their queue and the worker, in
-- services/browser_runner/src/voyagent_browser_runner. Times are seconds, durations milliseconds.
pub mod Types
pub mod Queue
pub mod Worker
pub mod Verdict
pub mod Drain
mod Tests
