-- ===== src/Runner/Models/Tests.antt =====
-- Checks of internal/rpc/agent/runner.go, model selection, at concrete inputs.
use animus_coder.Base.{
  ℕ, ◌≡◌, refl, ◌≢◌, inl, inr, true, false, none, some, [], ◌∷◌, arith, Text, codes, text_eq,
  text_eq_iff, text_eq→ne, trim_space, is_blank, to_lower, elem, lookup, insert, pos, ok, err,
}
use animus_coder.Llm.Registry.{
  ModelRoute, no_route, Registry, empty, register_provider, register_model, mark_expensive, resolve,
  is_expensive,
}
use animus_coder.Llm.Registry.Laws.{IsWellFormed}
use animus_coder.Agent.Strategy.{
  StrategyConfig, StrategyEngine, new_strategy_engine, pick_with_budget, next_fallback,
}
use animus_coder.Runner.Models.{
  Usage, select_model, try_fallback, fallback_loop, pick_fallback_model,
}
use animus_coder.Runner.Models.Select.{IsPaid, select_model-IsPaid}
use animus_coder.Runner.Models.Fallback.{
  IsFallback, pick_fallback_model_sound, pick_fallback_model_diverges, pick_fallback_model_ends,
}

abbrev route : ModelRoute
route = record no_route { provider = codes "p" }

-- Two models of one provider: "a", the default, and "b", which is expensive.
abbrev two_models : Registry ℕ
two_models = record {
  providers = (codes "p", 7) ∷ [];
  models =
      (codes "a", record route { name = codes "a" })
      ∷ (codes "b", record route { name = codes "b" })
      ∷ [];
  default_model = codes "a";
  expensive = (codes "b", true) ∷ [];
}

two_models_built :
    mark_expensive
      (register_model
        (register_model (register_provider empty (codes "p") 7) (codes "a") route true)
        (codes "b")
        route
        false)
      (codes "b")
      true
    ≡ two_models
unfolding mark_expensive register_model register_provider empty insert text_eq
two_models_built = refl

-- Both are fallbacks, and one use of an expensive model is allowed.
abbrev settings : StrategyConfig
settings = record {
  default_model = [];
  planner_model = [];
  coder_model = [];
  critic_model = [];
  overrides = [];
  fallbacks = codes "a" ∷ codes "b" ∷ [];
  max_expensive = pos 1;
}

abbrev only_b : StrategyConfig
only_b = record settings { fallbacks = codes "b" ∷ codes " " ∷ codes "b" ∷ [] }

abbrev fresh : Usage
fresh = record { expensive_used = 0; metrics = none }

abbrev spent_once : Usage
spent_once = record { expensive_used = 1; metrics = none }

abbrev engine : StrategyConfig → StrategyEngine ℕ
engine cfg = new_strategy_engine two_models cfg

two_models-IsWellFormed : IsWellFormed two_models
unfolding lookup text_eq
two_models-IsWellFormed = record {
  named = λ n rt h. ground (arith, text_eq_iff (codes "a") n, text_eq_iff (codes "b") n);
  default_known = λ _. refl;
}

two_models_named : (n : Text) (rt : ModelRoute) → lookup n two_models.models ≡ some rt → n ≢ []
unfolding lookup text_eq
two_models_named [] rt h e = cc
two_models_named (c ∷ n) rt h e = cc

select_model-IsPaid_example :
    IsPaid two_models settings fresh
      (select_model (some (engine settings)) (codes "coder") (codes "b") fresh)
select_model-IsPaid_example =
    select_model-IsPaid two_models settings fresh (codes "coder") (codes "b")
      (7, record route { name = codes "a" }) two_models-IsWellFormed two_models_named
      (unfold resolve lookup text_eq in refl)

-- With the budget spent, "b" gives way to the first fallback that resolves, which is "a" again.
b_gives_way :
    (try_fallback (engine settings) (codes "coder") (codes "a") (codes "b") spent_once).0 ≡ none
unfolding try_fallback pick_with_budget lookup animus_coder.Runner.Models.judged
    animus_coder.Agent.Strategy.resolve_wanted text_eq animus_coder.Agent.Strategy.wanted_model
    animus_coder.Agent.Strategy.first_non_empty is_blank resolve
    animus_coder.Agent.Strategy.budget_default animus_coder.Agent.Strategy.over_budget
    animus_coder.Agent.Strategy.budget_fallback animus_coder.Agent.Strategy.pick_of is_expensive
    animus_coder.Agent.Strategy.first_resolved
b_gives_way = refl

pick_fallback_model_diverges_example :
    pick_fallback_model 1000 (some (engine settings)) (codes "coder") (codes "a") spent_once ≡ none
pick_fallback_model_diverges_example =
    pick_fallback_model_diverges (engine settings) (codes "coder") (codes "a") spent_once
      (codes "a") (codes "b") [] 1000 refl (unfold is_blank in refl) (unfold is_blank in refl)
      (text_eq→ne (codes "a") (codes "b") (unfold text_eq in refl))
      (text_eq→ne (codes "a") [] (unfold text_eq in refl)) (inl refl) (inr b_gives_way)

pick_fallback_model_ends_example :
    (r : Text × Usage) × (pick_fallback_model 2
        (some (engine only_b))
        (codes "coder")
        (codes "a")
        fresh
      ≡ some r)
pick_fallback_model_ends_example =
    pick_fallback_model_ends (engine only_b) (codes "coder") (codes "a") fresh (codes "b") 0
      (unfold is_blank in (inr refl, (inl refl, (inr refl, tt))))

b_is_chosen :
    pick_fallback_model 1 (some (engine only_b)) (codes "coder") (codes "a") fresh
    ≡ some (codes "b", record { expensive_used = 1; metrics = none })
unfolding pick_fallback_model fallback_loop text_eq next_fallback is_blank elem try_fallback
    animus_coder.Runner.Models.judged pick_with_budget animus_coder.Agent.Strategy.resolve_wanted
    animus_coder.Agent.Strategy.wanted_model animus_coder.Agent.Strategy.first_non_empty resolve
    lookup animus_coder.Agent.Strategy.budget_default animus_coder.Agent.Strategy.over_budget
    animus_coder.Agent.Strategy.budget_fallback animus_coder.Agent.Strategy.first_resolved
    animus_coder.Agent.Strategy.next_in animus_coder.Agent.Strategy.override_of
    animus_coder.Agent.Strategy.pick_of animus_coder.Agent.Strategy.resolve_fallback
    animus_coder.Agent.Strategy.role_critic animus_coder.Agent.Strategy.role_model
    animus_coder.Agent.Strategy.role_planner animus_coder.Agent.Strategy.role_reflect
    animus_coder.Base.is_space animus_coder.Base.lower_byte to_lower trim_space is_expensive
    animus_coder.Metrics.label animus_coder.Metrics.record_model_failure
    animus_coder.Metrics.record_model_usage animus_coder.Runner.Models.failed
    animus_coder.Runner.Models.spent
b_is_chosen = refl

pick_fallback_model_sound_example :
    IsFallback (codes "a") fresh (codes "b", record { expensive_used = 1; metrics = none })
pick_fallback_model_sound_example =
    pick_fallback_model_sound (engine only_b) (codes "coder") (codes "a") fresh 1
      (codes "b", record { expensive_used = 1; metrics = none }) b_is_chosen
