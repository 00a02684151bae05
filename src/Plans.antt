-- ===== src/Plans.antt =====
-- src/qorl/plans: what a model may ask of the planner, and whether PostgreSQL did it.
pub mod Methods
pub mod Errors
pub mod Catalog
pub mod Schemas
pub mod Fingerprint
pub mod Nodes
pub mod Verify
mod Samples
mod Examples
