-- ===== src/Agent.antt =====
-- src/qorl/agent: the tools that a model may call in a rollout, and what they do to it.
pub mod Interface
pub mod ToolRuntime
mod Examples
