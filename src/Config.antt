-- ===== src/Config.antt =====
-- internal/config/config.go: the settings that the other parts read, and their validation.
-- A duration is a number of seconds; a temperature is counted in thousandths.
pub mod Validate
pub mod Sample
use animus_coder.Base.{ℕ, Bool, List, Text, Dict, ℤ, ok}
use animus_coder.Agent.Strategy.{StrategyConfig}

pub record ProviderConfig : Type 0 where
  pub kind : Text
  pub model : Text
  pub base_url : Text
  pub api_key : Text
  pub timeout : ℕ
  pub max_tokens : ℤ

pub record ModelConfig : Type 0 where
  pub provider : Text
  pub model : Text
  pub temperature : ℤ
  pub max_tokens : ℤ
  pub is_default : Bool
  pub expensive : Bool

pub record SandboxConfig : Type 0 where
  pub enabled : Bool
  pub allow_network : Bool
  pub allow_write : Bool
  pub allowed_commands : List Text
  pub denied_commands : List Text
  pub working_dir : Text
  pub timeout_seconds : ℤ

pub record ToolsConfig : Type 0 where
  pub allow_exec : Bool
  pub allow_git : Bool
  pub allow_file_write : Bool
  pub exec_timeout_seconds : ℤ
  pub enable_semantic : Bool
  pub semantic_max_files : ℤ
  pub semantic_max_file_bytes : ℤ

pub record AgentConfig : Type 0 where
  pub max_steps : ℤ
  pub max_tokens : ℤ
  pub temperature : ℤ
  pub enable_plan : Bool
  pub enable_reflect : Bool
  pub reflection_policy : Text
  pub enable_self_diff : Bool
  pub enable_test_run : Bool
  pub test_command : Text
  pub test_retries : ℤ
  pub test_timeout_seconds : ℤ
  pub max_context_bytes : ℤ

pub record LoggingConfig : Type 0 where
  pub level : Text
  pub format : Text

pub record ServerConfig : Type 0 where
  pub addr : Text
  pub metrics_enabled : Bool
  pub transport : Text

pub record Config : Type 0 where
  pub version : Text
  pub providers : Dict ProviderConfig
  pub models : Dict ModelConfig
  pub strategy : StrategyConfig
  pub sandbox : SandboxConfig
  pub tools : ToolsConfig
  pub agent : AgentConfig
  pub logging : LoggingConfig
  pub server : ServerConfig
