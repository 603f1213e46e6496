-- ===== src/Runner.antt =====
-- internal/rpc/agent: the runner that drives the agent and reports its progress as events.
pub mod Models
pub mod TestRun
pub mod TestOutput
pub mod Events
pub mod Serve
pub mod Connect
pub mod Critique
pub mod ToolCalls
pub mod Context
pub mod Outcome
pub mod Execute
pub mod Stage
pub mod Actions
pub mod Run
