-- ===== src/Reports.antt =====
-- The ageing reports: services/api/src/voyagent_api/reports.py.
pub mod Aging
pub mod Sums
mod Tests
