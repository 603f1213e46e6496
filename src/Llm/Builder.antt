-- ===== src/Llm/Builder.antt =====
-- internal/llm/configbuilder/configbuilder.go: the registry that the settings describe. A provider is
-- the call that makes it. A loop over a map visits it in the order of its list.
pub mod Complete
mod Tests
use animus_coder.Base.{
  ℕ, true, List, [], ◌∷◌, if◌then◌else◌, Text, codes, text_eq, elem, Dict, Result, ok, err, ◌>>=◌,
}
use animus_coder.Config.{ProviderConfig, ModelConfig, Config}
use animus_coder.Llm.Registry.{
  ModelRoute, ResolveError, Registry, empty, mark_expensive, register_provider, register_model,
  resolve,
}

-- `NewProvider` of the packages openai and ollama.
pub data Provider : Type 0 where
  openai : Text → Text → Text → ℕ → Provider
  ollama : Text → Text → ℕ → Provider

pub data BuildError : Type 0 where
  unknown_provider_type : Text → Text → BuildError
  unresolved : ResolveError → BuildError

openai_kinds : List Text
openai_kinds =
    codes "openai" ∷ codes "openrouter" ∷ codes "vllm" ∷ codes "lmstudio" ∷ codes "custom" ∷ []

unfoldable pub build_provider : Text → ProviderConfig → Result BuildError Provider
unfolding openai_kinds
build_provider name p =
    if elem p.kind openai_kinds
    then ok (openai name p.base_url p.api_key p.timeout)
    else if text_eq p.kind (codes "ollama")
    then ok (ollama name p.base_url p.timeout)
    else err (unknown_provider_type p.kind name)

unfoldable pub register_providers :
    Dict ProviderConfig → Registry Provider → Result BuildError (Registry Provider)
register_providers [] r = ok r
register_providers ((name, p) ∷ ps) r =
    build_provider name p >>= λ built. register_providers ps (register_provider r name built)

route_of : ModelConfig → ModelRoute
route_of m = record {
  name = [];
  provider = m.provider;
  model = m.model;
  temperature = m.temperature;
  max_tokens = m.max_tokens;
}

-- The body of the loop over the models.
unfoldable pub add_model : Text → ModelConfig → Registry Provider → Registry Provider
unfolding route_of
add_model name m r =
    let added = register_model r name (route_of m) m.is_default in
    if m.expensive then mark_expensive added name true else added

unfoldable pub register_models : Dict ModelConfig → Registry Provider → Registry Provider
register_models [] r = r
register_models ((name, m) ∷ ms) r = register_models ms (add_model name m r)

-- `reg.Resolve("")` as a test.
resolved_default : Registry Provider → Result BuildError (Registry Provider)
resolved_default r = elim (resolve r []) [ err e ↦ err (unresolved e) | ok x ↦ ok r ]

unfoldable pub build_registry : Config → Result BuildError (Registry Provider)
unfolding resolved_default
build_registry c =
    register_providers c.providers empty >>= λ r. resolved_default (register_models c.models r)
