-- ===== src/Tools.antt =====
-- src/tool_policy.c and src/tool_runner.c: what tools the agent may have run, and with what.
pub mod Json
pub mod Policy
pub mod Runner
