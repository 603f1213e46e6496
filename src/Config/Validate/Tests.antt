-- ===== src/Config/Validate/Tests.antt =====
-- A check of `Validate` at concrete settings.
use animus_coder.Base.{◌≡◌, ◌↔◌, none}
use animus_coder.Config.Sample.{sample_config, sample_config_validated}
use animus_coder.Config.Validate.{validate}
use animus_coder.Config.Validate.Sound.{IsValid, validate_iff}

sample_config-IsValid : IsValid sample_config
sample_config-IsValid = (validate_iff sample_config).0 sample_config_validated

validate_iff_example : (validate sample_config ≡ none) ↔ IsValid sample_config
validate_iff_example = validate_iff sample_config
