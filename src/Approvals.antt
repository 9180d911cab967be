-- ===== src/Approvals.antt =====
-- The approvals API: services/api/src/voyagent_api/approvals.py.
pub mod Endpoints
pub mod Decided
pub mod Answers
mod Tests
