-- ===== src/Agent/Strategy/Tests.antt =====
-- Checks of internal/agent/strategy.go at concrete settings.
use animus_coder.Base.{
  ℕ, ◌≡◌, refl, ◌≢◌, inl, inr, true, some, [], ◌∷◌, arith, codes, text_eq, trim_space, is_blank,
  to_lower, lookup, pos, ok, err,
}
use animus_coder.Llm.Registry.{ModelRoute, no_route, Registry, resolve, is_expensive}
use animus_coder.Agent.Strategy.{
  StrategyConfig, new_strategy_engine, wanted_model, resolve_wanted, first_resolved, pick_of,
  pick_with_budget,
}
use animus_coder.Agent.Strategy.Budget.{
  IsRegistered, pick_with_budget-limit, pick_with_budget-within, pick_with_budget-IsRegistered,
}

abbrev route : ModelRoute
route = record no_route { name = codes "b"; provider = codes "p" }

-- One model, which is expensive.
abbrev one : Registry ℕ
one = record {
  providers = (codes "p", 7) ∷ [];
  models = (codes "b", route) ∷ [];
  default_model = codes "b";
  expensive = (codes "b", true) ∷ [];
}

abbrev settings : StrategyConfig
settings = record {
  default_model = codes "b";
  planner_model = [];
  coder_model = [];
  critic_model = [];
  overrides = [];
  fallbacks = codes "b" ∷ [];
  max_expensive = pos 1;
}

-- The budget is spent, and nothing is cheaper.
b_is_chosen :
    pick_with_budget (new_strategy_engine one settings) (codes "coder") [] 1
    ≡ ok (pick_of one 7 route)
unfolding pick_with_budget resolve_wanted text_eq wanted_model
    animus_coder.Agent.Strategy.first_non_empty is_blank animus_coder.Agent.Strategy.override_of
    lookup animus_coder.Agent.Strategy.role_model to_lower trim_space resolve pick_of
    animus_coder.Agent.Strategy.budget_default animus_coder.Agent.Strategy.over_budget
    animus_coder.Agent.Strategy.budget_fallback is_expensive first_resolved
    animus_coder.Agent.Strategy.no_pick animus_coder.Agent.Strategy.pick_with
    animus_coder.Agent.Strategy.resolve_fallback animus_coder.Agent.Strategy.role_critic
    animus_coder.Agent.Strategy.role_planner animus_coder.Agent.Strategy.role_reflect
    animus_coder.Base.is_space animus_coder.Base.lower_byte
    animus_coder.Llm.Registry.resolve_provider
b_is_chosen = refl

pick_with_budget-limit_example :
    ((x : ℕ × ModelRoute)
      → first_resolved one settings.fallbacks ≡ some x
      → is_expensive one x.1.name ≡ true)
    × ((x : ℕ × ModelRoute)
        → settings.default_model ≢ []
        → resolve one settings.default_model ≡ ok x
        → is_expensive one x.1.name ≡ true)
pick_with_budget-limit_example =
    pick_with_budget-limit one settings 1 (codes "coder") [] (pick_of one 7 route) refl
      (omega arith) b_is_chosen (unfold pick_of is_expensive lookup text_eq in refl)

b_is_wanted : resolve_wanted one settings (wanted_model settings (codes "coder") []) ≡ ok (7, route)
unfolding resolve_wanted text_eq wanted_model animus_coder.Agent.Strategy.first_non_empty is_blank
    animus_coder.Agent.Strategy.override_of lookup animus_coder.Agent.Strategy.role_model to_lower
    trim_space resolve
b_is_wanted = refl

within_budget :
    pick_with_budget (new_strategy_engine one settings) (codes "coder") [] 0
    ≡ ok (pick_of one 7 route)
within_budget =
    pick_with_budget-within one settings 0 (codes "coder") [] 7 route b_is_wanted
      (inr (inl (omega arith)))

pick-IsRegistered : IsRegistered one (pick_of one 7 route)
pick-IsRegistered =
    pick_with_budget-IsRegistered one settings 1 (codes "coder") [] (pick_of one 7 route)
      b_is_chosen
