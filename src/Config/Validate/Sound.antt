-- ===== src/Config/Validate/Sound.antt =====
-- What `Validate` accepts, read as a description of good settings.
use animus_coder.Base.{
  ◌≤◌, ◌≡◌, refl, sym, subst, ◌≢◌, ◌↔◌, ◌⊎◌, inl, inr, Bool, true, false, ◌&&◌, not, Option, none,
  some, List, [], ◌∷◌, arith, Bool-cases, is_some, Among, All, Text, text_eq_iff, is_blank, Dict,
  lookup, pos_part, is_negative, is_positive,
}
use animus_coder.Agent.Strategy.{StrategyConfig}
use animus_coder.Config.{ProviderConfig, ModelConfig, AgentConfig, Config}
use animus_coder.Config.Validate.{
  ConfigError, unknown_strategy_model, ◌then_check◌, fail_if, is_empty, check_providers, above_two,
  check_model, check_models, default_found, known_model, check_roles, check_fallbacks,
  check_overrides, known_policy, known_transport, check_agent, check_strategy, validate,
}

abbrev pub ProviderIsValid : Text × ProviderConfig → Type 0
ProviderIsValid (name, p) = p.kind ≢ []

abbrev pub ModelIsValid : Dict ProviderConfig → Text × ModelConfig → Type 0
ModelIsValid providers (name, m) =
    (m.provider ≢ [])
    × (is_some (lookup m.provider providers) ≡ true)
    × (is_negative m.temperature ≡ false)
    × (pos_part m.temperature ≤ 2000)
    × (is_negative m.max_tokens ≡ false)

abbrev pub IsDefault : Text × ModelConfig → Type 0
IsDefault (name, m) = m.is_default ≡ true

abbrev pub AgentIsValid : AgentConfig → Type 0
AgentIsValid a =
    (is_positive a.max_steps ≡ true)
    × (is_negative a.max_context_bytes ≡ false)
    × ((a.enable_test_run ≡ false) ⊎ (is_blank a.test_command ≡ false))
    × (is_negative a.test_retries ≡ false)
    × (is_negative a.test_timeout_seconds ≡ false)
    × (known_policy a.reflection_policy ≡ true)

abbrev pub Known : Dict ModelConfig → Text → Type 0
Known models id = known_model models id ≡ true

abbrev pub KnownOrBlank : Dict ModelConfig → Text → Type 0
KnownOrBlank models id = (is_blank id ≡ true) ⊎ Known models id

abbrev pub StrategyIsValid : Dict ModelConfig → StrategyConfig → Type 0
StrategyIsValid models s =
    All (KnownOrBlank models)
      (s.default_model ∷ s.planner_model ∷ s.coder_model ∷ s.critic_model ∷ [])
    × All (Known models) s.fallbacks
    × All (λ (x : Text × Text). Known models x.1) s.overrides
    × (is_negative s.max_expensive ≡ false)

pub record IsValid (c : Config) : Type 0 where
  pub providers_given : c.providers ≢ []
  pub models_given : c.models ≢ []
  pub providers_typed : All ProviderIsValid c.providers
  pub models_bound : All (ModelIsValid c.providers) c.models
  pub default_given : (x : Text × ModelConfig) × Among x c.models × IsDefault x
  pub agent_valid : AgentIsValid c.agent
  pub sandbox_timeout : is_positive c.sandbox.timeout_seconds ≡ true
  pub exec_timeout : is_positive c.tools.exec_timeout_seconds ≡ true
  pub strategy_valid : StrategyIsValid c.models c.strategy
  pub semantic_files : is_negative c.tools.semantic_max_files ≡ false
  pub semantic_bytes : is_negative c.tools.semantic_max_file_bytes ≡ false
  pub transport_known : known_transport c.server.transport ≡ true

then_check-none : (a b : Option ConfigError) → ((a then_check b) ≡ none) ↔ ((a ≡ none) × (b ≡ none))
then_check-none none b = (λ h. (refl, h), λ h. h.1)
then_check-none (some e) b = (λ h. absurd (cc h), λ h. absurd (cc h.0))

fail_if-none : (test : Bool) (e : ConfigError) → (fail_if test e ≡ none) ↔ (test ≡ false)
fail_if-none true e = (λ h. absurd (cc h), λ h. absurd (cc h))
fail_if-none false e = (λ h. refl, λ h. refl)

providers_iff : (ps : Dict ProviderConfig) → (check_providers ps ≡ none) ↔ All ProviderIsValid ps
unfolding check_providers
providers_iff [] = (λ h. tt, λ h. refl)
providers_iff ((name, p) ∷ ps) = (
  λ h. (ground (arith, text_eq_iff p.kind []), (providers_iff ps).0 (ground arith)),
  λ h. ground (arith, text_eq_iff p.kind [], (providers_iff ps).1 h.1),
)

model_iff :
    (providers : Dict ProviderConfig) (name : Text) (m : ModelConfig)
    → (check_model providers name m ≡ none) ↔ ModelIsValid providers (name, m)
unfolding check_model above_two
model_iff providers name m =
    (λ h. ground (arith, text_eq_iff m.provider []), λ h. ground (arith, text_eq_iff m.provider []))

models_iff :
    (providers : Dict ProviderConfig) (ms : Dict ModelConfig)
    → (check_models providers ms ≡ none) ↔ All (ModelIsValid providers) ms
unfolding check_models
models_iff providers [] = (λ h. tt, λ h. refl)
models_iff providers ((name, m) ∷ ms) =
    let split = then_check-none (check_model providers name m) (check_models providers ms) in
    (
      λ h.
          ((model_iff providers name m).0 (split.0 h).0, (models_iff providers ms).0 (split.0 h).1),
      λ h. split.1 ((model_iff providers name m).1 h.0, (models_iff providers ms).1 h.1),
    )

default_found_iff :
    (ms : Dict ModelConfig)
    → (default_found ms ≡ true) ↔ ((x : Text × ModelConfig) × Among x ms × IsDefault x)
unfolding default_found
default_found_iff [] = (λ h. absurd (cc h), λ (x, m, d). absurd m)
default_found_iff ((name, m) ∷ ms) = (
  λ h. elim (Bool-cases m.is_default) [
    | inl e ↦ ((name, m), inl refl, e)
    | inr e ↦ let (x, a, d) = (default_found_iff ms).0 (ground arith) in (x, inr a, d)
  ],
  λ (x, a, d). elim a [
    | inl e ↦ let here : m.is_default ≡ true = subst IsDefault (sym e) d in ground arith
    | inr a ↦ let later = (default_found_iff ms).1 (x, a, d) in ground arith
  ],
)

roles_iff :
    (models : Dict ModelConfig) (ids : List Text)
    → (check_roles models ids ≡ none) ↔ All (KnownOrBlank models) ids
unfolding check_roles
roles_iff models [] = (λ h. tt, λ h. refl)
roles_iff models (id ∷ ids) =
    let split =
      then_check-none
        (fail_if (not (is_blank id) && not (known_model models id)) (unknown_strategy_model id))
        (check_roles models ids) in
    (
      λ h.
          let first = (split.0 h).0 in
          (
            elim (Bool-cases (is_blank id)) [ inl e ↦ inl e | inr e ↦ inr (ground arith) ],
            (roles_iff models ids).0 (split.0 h).1,
          ),
      λ h.
          split.1 (
            elim h.0 [ inl e ↦ ground arith | inr e ↦ ground arith ],
            (roles_iff models ids).1 h.1,
          ),
    )

fallbacks_iff :
    (models : Dict ModelConfig) (ids : List Text)
    → (check_fallbacks models ids ≡ none) ↔ All (Known models) ids
unfolding check_fallbacks
fallbacks_iff models [] = (λ h. tt, λ h. refl)
fallbacks_iff models (id ∷ ids) = (
  λ h. (ground arith, (fallbacks_iff models ids).0 (ground arith)),
  λ h. ground (arith, (fallbacks_iff models ids).1 h.1),
)

overrides_iff :
    (models : Dict ModelConfig) (os : Dict Text)
    → (check_overrides models os ≡ none) ↔ All (λ (x : Text × Text). Known models x.1) os
unfolding check_overrides
overrides_iff models [] = (λ h. tt, λ h. refl)
overrides_iff models ((role, id) ∷ os) = (
  λ h. (ground arith, (overrides_iff models os).0 (ground arith)),
  λ h. ground (arith, (overrides_iff models os).1 h.1),
)

agent_iff : (a : AgentConfig) → (check_agent a ≡ none) ↔ AgentIsValid a
unfolding check_agent
agent_iff a = (
  λ h. (
    ground arith,
    ground arith,
    elim (Bool-cases a.enable_test_run) [ inl e ↦ inr (ground arith) | inr e ↦ inl e ],
    ground arith,
    ground arith,
    ground arith,
  ),
  λ h. elim h.2 [ inl e ↦ ground arith | inr e ↦ ground arith ],
)

strategy_iff :
    (models : Dict ModelConfig) (s : StrategyConfig)
    → (check_strategy models s ≡ none) ↔ StrategyIsValid models s
unfolding check_strategy
strategy_iff models s =
    let roles = s.default_model ∷ s.planner_model ∷ s.coder_model ∷ s.critic_model ∷ [] in
    let r = roles_iff models roles in
    let f = fallbacks_iff models s.fallbacks in
    let o = overrides_iff models s.overrides in
    (
      λ h. (r.0 (ground arith), f.0 (ground arith), o.0 (ground arith), ground arith),
      λ (hr, hf, ho, hm). ground (arith, r.1 hr, f.1 hf, o.1 ho),
    )

is_empty-given {ℓ} : {A : Type ℓ} (xs : List A) → is_empty xs ≡ false → xs ≢ []
unfolding is_empty
is_empty-given [] h = absurd (cc h)
is_empty-given (x ∷ xs) h = λ e. absurd (cc e)

is_empty-false {ℓ} : {A : Type ℓ} (xs : List A) → xs ≢ [] → is_empty xs ≡ false
unfolding is_empty
is_empty-false [] h = absurd (h refl)
is_empty-false (x ∷ xs) h = refl

-- `validate` accepts the settings exactly when they are valid as `IsValid` describes: every provider
-- has a type, every model a known provider and numbers in range, one model is a default one, and
-- every model that the strategy names is configured.
pub validate_iff : (c : Config) → (validate c ≡ none) ↔ IsValid c
unfolding validate is_empty
validate_iff c =
    let p = providers_iff c.providers in
    let m = models_iff c.providers c.models in
    let d = default_found_iff c.models in
    let a = agent_iff c.agent in
    let s = strategy_iff c.models c.strategy in
    (
      λ h. record {
        providers_given = is_empty-given c.providers (ground arith);
        models_given = is_empty-given c.models (ground arith);
        providers_typed = p.0 (ground arith);
        models_bound = m.0 (ground arith);
        default_given = d.0 (ground arith);
        agent_valid = a.0 (ground arith);
        sandbox_timeout = ground arith;
        exec_timeout = ground arith;
        strategy_valid = s.0 (ground arith);
        semantic_files = ground arith;
        semantic_bytes = ground arith;
        transport_known = ground arith;
      },
      λ v.
          let ps = is_empty-false c.providers v.providers_given in
          let ms = is_empty-false c.models v.models_given in
          let pt = p.1 v.providers_typed in
          let mb = m.1 v.models_bound in
          let df = d.1 v.default_given in
          let av = a.1 v.agent_valid in let sv = s.1 v.strategy_valid in ground arith,
    )
