-- ===== src/Agent.antt =====
-- internal/agent: model selection, prompts, and the sessions and turns of the agent.
pub mod Strategy
pub mod Types
pub mod Prompt
pub mod Session
pub mod Turn
