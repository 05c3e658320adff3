-- ===== src/Router.antt =====
-- The governed execution and the routing of crates/orion-router.
pub mod Goal
pub mod Execution
pub mod Prompts
pub mod Governor
pub mod Planner
pub mod Constraints
pub mod Provider
pub mod Routing
pub mod Clients
mod Tests
