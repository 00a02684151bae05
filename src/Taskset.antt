-- ===== src/Taskset.antt =====
-- src/qorl/taskset: the benchmark catalogs, and the selections of their tasks for the splits.
pub mod Schemas
pub mod Selection
pub mod Sampling
mod Examples
