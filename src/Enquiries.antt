-- ===== src/Enquiries.antt =====
-- Customer enquiries: services/api/src/voyagent_api/enquiries.py.
pub mod Types
pub mod Validation
pub mod Endpoints
pub mod Kept
pub mod Rules
pub mod Valid
pub mod Tenants
pub mod Pages
pub mod Promotion
mod Tests
