-- ===== src/Llm.antt =====
-- internal/llm: model routes, the registry of models and providers.
pub mod Registry
pub mod Builder
