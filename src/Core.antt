-- ===== src/Core.antt =====
-- crates/orion-core: the safety checks on messages and searches, and the gate on tool requests.
pub mod Superego
pub mod Policy
pub mod Hosts
mod Tests
