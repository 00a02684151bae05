-- ===== src/Measure.antt =====
-- src/qorl/measure: how candidate plans are validated, and which one is chosen.
pub mod Schemas
pub mod Planner
pub mod Validation
pub mod Query
pub mod Timeouts
pub mod Evidence
pub mod Rollout
pub mod Samples
mod Examples
