-- ===== src/Llm/Builder/Tests.antt =====
-- A check of `BuildRegistryFromConfig` at concrete settings.
use animus_coder.Base.{◌≡◌, refl, true, [], is_some, Text, codes, text_eq, elem, lookup, ok}
use animus_coder.Config.Sample.{sample_config, sample_config_validated}
use animus_coder.Config.Validate.Sound.{validate_iff}
use animus_coder.Llm.Registry.{Registry, resolve}
use animus_coder.Llm.Builder.{Provider, ollama, build_provider, build_registry}
use animus_coder.Llm.Builder.Complete.{IsOk, build_registry-resolves}

build_registry-resolves_example :
    (r : Registry Provider) × (build_registry sample_config ≡ ok r)
    × IsOk (resolve r [])
    × ((n : Text) → is_some (lookup n sample_config.models) ≡ true → IsOk (resolve r n))
build_registry-resolves_example =
    build_registry-resolves sample_config ((validate_iff sample_config).0 sample_config_validated)
      ((ollama (codes "p") (codes "http://x") 60, unfold build_provider elem text_eq in refl), tt)
