-- ===== src/Skills.antt =====
-- The skills runtime, crates/orion-skills.
pub mod Manifest
pub mod Failure
pub mod Sandbox
pub mod Registry
pub mod Executor
mod Tests
