-- ===== src/Api.antt =====
-- crates/orion-api: the scheduled jobs of the server. Its routes are not modelled.
pub mod Jobs
pub mod Store
mod Tests
