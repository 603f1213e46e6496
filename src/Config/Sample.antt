-- ===== src/Config/Sample.antt =====
-- Settings for the checks: one provider, two models, a reflection policy and a strategy.
use animus_coder.Base.{
  ◌≡◌, refl, true, false, none, [], ◌∷◌, codes, text_eq, trim_space, is_blank, to_lower, elem,
  lookup, pos, ok, err,
}
use animus_coder.Agent.Strategy.{StrategyConfig}
use animus_coder.Config.{
  ProviderConfig, ModelConfig, SandboxConfig, ToolsConfig, AgentConfig, Config,
}
use animus_coder.Config.Validate.{validate}

abbrev pub sample_provider : ProviderConfig
sample_provider = record {
  kind = codes "ollama";
  model = [];
  base_url = codes "http://x";
  api_key = [];
  timeout = 60;
  max_tokens = pos 0;
}

abbrev pub sample_model : ModelConfig
sample_model = record {
  provider = codes "p";
  model = codes "llama";
  temperature = pos 200;
  max_tokens = pos 0;
  is_default = true;
  expensive = false;
}

abbrev pub sample_agent : AgentConfig
sample_agent = record {
  max_steps = pos 3;
  max_tokens = pos 0;
  temperature = pos 0;
  enable_plan = true;
  enable_reflect = true;
  reflection_policy = codes "Warn_Only";
  enable_self_diff = false;
  enable_test_run = false;
  test_command = [];
  test_retries = pos 0;
  test_timeout_seconds = pos 0;
  max_context_bytes = pos 0;
}

abbrev pub sample_sandbox : SandboxConfig
sample_sandbox = record {
  enabled = true;
  allow_network = false;
  allow_write = true;
  allowed_commands = [];
  denied_commands = codes "Rm" ∷ [];
  working_dir = codes "/w";
  timeout_seconds = pos 30;
}

abbrev pub sample_tools : ToolsConfig
sample_tools = record {
  allow_exec = true;
  allow_git = true;
  allow_file_write = true;
  exec_timeout_seconds = pos 30;
  enable_semantic = false;
  semantic_max_files = pos 0;
  semantic_max_file_bytes = pos 0;
}

abbrev pub sample_strategy : StrategyConfig
sample_strategy = record {
  default_model = codes "a";
  planner_model = [];
  coder_model = [];
  critic_model = [];
  overrides = (codes "critic", codes "b") ∷ [];
  fallbacks = codes "b" ∷ [];
  max_expensive = pos 1;
}

abbrev pub sample_config : Config
sample_config = record {
  version = codes "1";
  providers = (codes "p", sample_provider) ∷ [];
  models =
      (codes "a", sample_model)
      ∷ (codes "b", record sample_model { is_default = false; expensive = true })
      ∷ [];
  strategy = sample_strategy;
  sandbox = sample_sandbox;
  tools = sample_tools;
  agent = sample_agent;
  logging = record { level = []; format = [] };
  server = record { addr = []; metrics_enabled = true; transport = codes "connect" };
}

pub sample_config_validated : validate sample_config ≡ none
unfolding validate animus_coder.Config.Validate.check_providers text_eq
    animus_coder.Config.Validate.check_models animus_coder.Config.Validate.check_model lookup
    animus_coder.Config.Validate.above_two animus_coder.Config.Validate.default_found
    animus_coder.Config.Validate.check_agent animus_coder.Config.Validate.known_policy elem to_lower
    trim_space animus_coder.Config.Validate.check_strategy animus_coder.Config.Validate.check_roles
    is_blank animus_coder.Config.Validate.known_model animus_coder.Base.is_space
    animus_coder.Base.lower_byte animus_coder.Config.Validate.check_fallbacks
    animus_coder.Config.Validate.check_overrides animus_coder.Config.Validate.known_transport
sample_config_validated = refl
