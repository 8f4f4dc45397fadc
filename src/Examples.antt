-- ===== src/Examples.antt =====
-- Runs of the definitions on small inputs.
pub mod Disclosure
pub mod Releases
pub mod Lifecycle
pub mod Routing
pub mod Orchestration
pub mod Intake
pub mod Imports
pub mod Mapping
pub mod Budgets
pub mod Prompts
pub mod Sharing
pub mod Commons
