-- ===== src/Caches.antt =====
-- Caches in memory whose entries expire: offer_cache.py and tool_cache.py of
-- services/agent_runtime/src/voyagent_agent_runtime. Times are seconds.
pub mod Expiry
pub mod Offers
pub mod Tools
pub mod Refinement
mod Tests
