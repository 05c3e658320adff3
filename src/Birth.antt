-- ===== src/Birth.antt =====
-- crates/orion-birth: the life cycle that turns a fresh installation into an agent with a signed
-- constitution. The chat and the prompts of the crate are not modelled.
pub mod Stage
pub mod Machine
pub mod Orchestrator
pub mod Ceremony
pub mod Monotone
pub mod Forward
pub mod Lifetime
pub mod Emergence
pub mod Completion
pub mod Key
pub mod Once
pub mod Success
pub mod Documents
pub mod Signing
pub mod Liveness
pub mod Restart
pub mod Verifier
mod Tests
