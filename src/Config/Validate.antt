-- ===== src/Config/Validate.antt =====
-- internal/config/config.go: `Validate`. A loop over a map visits it in the order of its list; which
-- of several errors comes first depends on that order, whether there is one does not.
pub mod Sound
mod Tests
use animus_coder.Base.{
  Bool, true, false, ◌&&◌, ◌||◌, not, Option, none, some, List, [], ◌∷◌, ltb, if◌then◌else◌,
  is_some, Text, codes, text_eq, trim_space, is_blank, to_lower, elem, Dict, lookup, ℤ, pos,
  pos_part, is_negative, is_positive, ok, err,
}
use animus_coder.Agent.Strategy.{StrategyConfig}
use animus_coder.Config.{ProviderConfig, ModelConfig, AgentConfig, Config}

pub data ConfigError : Type 0 where
  no_providers no_models no_default : ConfigError
  provider_without_type : Text → ConfigError
  model_without_provider : Text → ConfigError
  unknown_provider : Text → Text → ConfigError
  temperature_out_of_range : Text → ConfigError
  negative_model_tokens : Text → ConfigError
  max_steps_not_positive negative_context_bytes test_command_missing : ConfigError
  negative_test_retries negative_test_timeout unknown_reflection_policy : ConfigError
  sandbox_timeout_not_positive exec_timeout_not_positive : ConfigError
  unknown_strategy_model unknown_fallback unknown_override : Text → ConfigError
  negative_max_expensive negative_semantic_files negative_semantic_bytes : ConfigError
  unknown_transport : Text → ConfigError

-- `if test { return error }`, and on to the next test.
infixr 20 ◌then_check◌
abbrev pub ◌then_check◌ : Option ConfigError → Option ConfigError → Option ConfigError
none then_check next = next
(some e) then_check next = some e

abbrev pub fail_if : Bool → ConfigError → Option ConfigError
fail_if test e = if test then some e else none

is_empty {ℓ} : {A : Type ℓ} → List A → Bool
is_empty [] = true
is_empty (x ∷ xs) = false

unfoldable pub check_providers : Dict ProviderConfig → Option ConfigError
check_providers [] = none
check_providers ((name, p) ∷ ps) =
    fail_if (text_eq p.kind []) (provider_without_type name) then_check check_providers ps

-- m > 2, in thousandths.
unfoldable pub above_two : ℤ → Bool
above_two t = ltb 2000 (pos_part t)

-- The body of the loop over the models.
unfoldable pub check_model : Dict ProviderConfig → Text → ModelConfig → Option ConfigError
check_model providers name m =
    fail_if (text_eq m.provider []) (model_without_provider name)
    then_check fail_if (not (is_some (lookup m.provider providers)))
        (unknown_provider name m.provider)
    then_check fail_if (is_negative m.temperature || above_two m.temperature)
        (temperature_out_of_range name)
    then_check fail_if (is_negative m.max_tokens) (negative_model_tokens name)

unfoldable pub check_models : Dict ProviderConfig → Dict ModelConfig → Option ConfigError
check_models providers [] = none
check_models providers ((name, m) ∷ ms) =
    check_model providers name m then_check check_models providers ms

unfoldable pub default_found : Dict ModelConfig → Bool
default_found [] = false
default_found ((name, m) ∷ ms) = m.is_default || default_found ms

unfoldable pub known_model : Dict ModelConfig → Text → Bool
known_model models id = is_some (lookup id models)

-- The loop over the models of the roles: a blank setting is skipped.
unfoldable pub check_roles : Dict ModelConfig → List Text → Option ConfigError
check_roles models [] = none
check_roles models (id ∷ ids) =
    fail_if (not (is_blank id) && not (known_model models id)) (unknown_strategy_model id)
    then_check check_roles models ids

unfoldable pub check_fallbacks : Dict ModelConfig → List Text → Option ConfigError
check_fallbacks models [] = none
check_fallbacks models (id ∷ ids) =
    fail_if (not (known_model models id)) (unknown_fallback id)
    then_check check_fallbacks models ids

unfoldable pub check_overrides : Dict ModelConfig → Dict Text → Option ConfigError
check_overrides models [] = none
check_overrides models ((role, id) ∷ os) =
    fail_if (not (known_model models id)) (unknown_override id) then_check check_overrides models os

-- The `switch` over the reflection policies.
unfoldable pub known_policy : Text → Bool
known_policy policy =
    elem (to_lower (trim_space policy))
      ([] ∷ codes "block_on_critical" ∷ codes "never_block" ∷ codes "warn_only" ∷ [])

unfoldable pub known_transport : Text → Bool
known_transport transport =
    elem (to_lower (trim_space transport)) ([] ∷ codes "connect" ∷ codes "ndjson" ∷ [])

unfoldable pub check_agent : AgentConfig → Option ConfigError
check_agent a =
    fail_if (not (is_positive a.max_steps)) max_steps_not_positive
    then_check fail_if (is_negative a.max_context_bytes) negative_context_bytes
    then_check fail_if (a.enable_test_run && is_blank a.test_command) test_command_missing
    then_check fail_if (is_negative a.test_retries) negative_test_retries
    then_check fail_if (is_negative a.test_timeout_seconds) negative_test_timeout
    then_check fail_if (not (known_policy a.reflection_policy)) unknown_reflection_policy

unfoldable pub check_strategy : Dict ModelConfig → StrategyConfig → Option ConfigError
check_strategy models s =
    check_roles models (s.default_model ∷ s.planner_model ∷ s.coder_model ∷ s.critic_model ∷ [])
    then_check check_fallbacks models s.fallbacks
    then_check check_overrides models s.overrides
    then_check fail_if (is_negative s.max_expensive) negative_max_expensive

unfoldable pub validate : Config → Option ConfigError
unfolding is_empty
validate c =
    fail_if (is_empty c.providers) no_providers
    then_check fail_if (is_empty c.models) no_models
    then_check check_providers c.providers
    then_check check_models c.providers c.models
    then_check fail_if (not (default_found c.models)) no_default
    then_check check_agent c.agent
    then_check fail_if (not (is_positive c.sandbox.timeout_seconds)) sandbox_timeout_not_positive
    then_check fail_if (not (is_positive c.tools.exec_timeout_seconds)) exec_timeout_not_positive
    then_check check_strategy c.models c.strategy
    then_check fail_if (is_negative c.tools.semantic_max_files) negative_semantic_files
    then_check fail_if (is_negative c.tools.semantic_max_file_bytes) negative_semantic_bytes
    then_check fail_if (not (known_transport c.server.transport))
        (unknown_transport c.server.transport)
