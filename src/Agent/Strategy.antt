-- ===== src/Agent/Strategy.antt =====
-- internal/agent/strategy.go and internal/config/strategy.go: the model of a phase, under a budget.
pub mod Choice
pub mod Budget
mod Tests
use animus_coder.Base.{
  ℕ, Bool, false, ◌&&◌, ◌||◌, not, Option, none, some, List, [], ◌∷◌, leb, if◌then◌else◌, Text,
  codes, text_eq, trim_space, is_blank, to_lower, Dict, lookup, ℤ, pos, pos_part, is_positive,
  Result, ok, err,
}
use animus_coder.Llm.Registry.{ModelRoute, no_route, ResolveError, Registry, resolve, is_expensive}

-- An empty text is a setting that is not given.
pub record StrategyConfig : Type 0 where
  pub default_model : Text
  pub planner_model : Text
  pub coder_model : Text
  pub critic_model : Text
  pub overrides : Dict Text
  pub fallbacks : List Text
  pub max_expensive : ℤ

-- The engine's registry may be nil.
pub record StrategyEngine (P : Type 0) : Type 0 where
  pub registry : Option (Registry P)
  pub cfg : StrategyConfig

-- `NewStrategyEngine` over a registry that is there.
abbrev pub new_strategy_engine : {P : Type 0} → Registry P → StrategyConfig → StrategyEngine P
new_strategy_engine r cfg = record { registry = some r; cfg = cfg }

-- The same helper stands in strategy.go and in rpc/agent/runner.go.
unfoldable pub first_non_empty : List Text → Text
first_non_empty [] = []
first_non_empty (v ∷ vals) = if is_blank v then first_non_empty vals else v

unfoldable pub role_planner : Text
role_planner = codes "planner"

unfoldable pub role_critic : Text
role_critic = codes "critic"

unfoldable pub role_reflect : Text
role_reflect = codes "reflect"

unfoldable pub role_model : Text → StrategyConfig → Text
unfolding role_planner role_critic role_reflect
role_model role cfg =
    if text_eq role role_planner
    then cfg.planner_model
    else if text_eq role role_critic || text_eq role role_reflect
    then cfg.critic_model
    else cfg.coder_model

-- `cfg.Overrides[role]`: a missing key reads as the empty text.
unfoldable pub override_of : Text → StrategyConfig → Text
override_of role cfg = elim (lookup role cfg.overrides) [ none ↦ [] | some id ↦ id ]

-- The model that a role asks for, before anything is resolved.
unfoldable pub wanted_model : StrategyConfig → Text → Text → Text
wanted_model cfg role override =
    let role = to_lower (trim_space role) in
    first_non_empty (override ∷ override_of role cfg ∷ role_model role cfg ∷ cfg.default_model ∷ [])

-- A choice: the provider (nil without a registry), its route, the model's name and whether it is
-- marked expensive.
pub record Pick (P : Type 0) : Type 0 where
  pub provider : Option P
  pub route : ModelRoute
  pub chosen : Text
  pub expensive : Bool

module _ {P : Type 0} where
  -- The loop over the fallbacks that leaves at the first one that resolves.
  unfoldable pub first_resolved : Registry P → List Text → Option (P × ModelRoute)
  first_resolved r [] = none
  first_resolved r (fb ∷ fbs) =
      let rest = first_resolved r fbs in
      elim (resolve r fb) [ ok found ↦ some found | err e ↦ rest ]

  -- What `ResolveModel` does once the wanted model is out: the fallbacks, then the default.
  unfoldable pub resolve_fallback :
      Registry P → StrategyConfig → Result ResolveError (P × ModelRoute)
  resolve_fallback r cfg = elim (first_resolved r cfg.fallbacks) [
    | some found ↦ ok found
    | none ↦ resolve r []
  ]

  -- `ResolveModel` behind its nil tests.
  unfoldable pub resolve_wanted :
      Registry P → StrategyConfig → Text → Result ResolveError (P × ModelRoute)
  unfolding resolve_fallback
  resolve_wanted r cfg model_id =
      if text_eq model_id []
      then resolve_fallback r cfg
      else elim (resolve r model_id) [ ok found ↦ ok found | err e ↦ resolve_fallback r cfg ]

  some_provider : Result ResolveError (P × ModelRoute) → Result ResolveError (Option P × ModelRoute)
  some_provider (ok (p, route)) = ok (some p, route)
  some_provider (err e) = err e

  resolve_with :
      Option (Registry P)
      → StrategyConfig
      → Text
      → Text
      → Result ResolveError (Option P × ModelRoute)
  unfolding some_provider
  resolve_with none cfg role override = ok (none, no_route)
  resolve_with (some r) cfg role override =
      some_provider (resolve_wanted r cfg (wanted_model cfg role override))

  unfoldable pub resolve_model :
      Option (StrategyEngine P) → Text → Text → Result ResolveError (Option P × ModelRoute)
  unfolding resolve_with
  resolve_model none role override = ok (none, no_route)
  resolve_model (some s) role override = resolve_with s.registry s.cfg role override

  unfoldable pub pick_of : Registry P → P → ModelRoute → Pick P
  pick_of r p route = record {
    provider = some p;
    route = route;
    chosen = route.name;
    expensive = is_expensive r route.name;
  }

  -- `cfg.MaxExpensive > 0 && isExp && expensiveUsed >= cfg.MaxExpensive`
  unfoldable pub over_budget : StrategyConfig → ℕ → Pick P → Bool
  over_budget cfg used k =
      is_positive cfg.max_expensive && (k.expensive && leb (pos_part cfg.max_expensive) used)

  unfoldable pub budget_fallback : Registry P → StrategyConfig → ℕ → Pick P → Pick P
  budget_fallback r cfg used k =
      if over_budget cfg used k
      then elim (first_resolved r cfg.fallbacks) [ none ↦ k | some (p, route) ↦ pick_of r p route ]
      else k

  unfoldable pub budget_default : Registry P → StrategyConfig → ℕ → Pick P → Pick P
  budget_default r cfg used k =
      if over_budget cfg used k && not (text_eq cfg.default_model [])
      then elim (resolve r cfg.default_model) [ err e ↦ k | ok (p, route) ↦ pick_of r p route ]
      else k

  no_pick : Pick P
  no_pick = record { provider = none; route = no_route; chosen = []; expensive = false }

  pick_with : Option (Registry P) → StrategyConfig → Text → Text → ℕ → Result ResolveError (Pick P)
  unfolding no_pick
  pick_with none cfg role override used = ok no_pick
  pick_with (some r) cfg role override used =
      elim (resolve_wanted r cfg (wanted_model cfg role override)) [
        | err e ↦ err e
        | ok (p, route) ↦
            ok (budget_default r cfg used (budget_fallback r cfg used (pick_of r p route)))
      ]

  unfoldable pub pick_with_budget :
      StrategyEngine P → Text → Text → ℕ → Result ResolveError (Pick P)
  unfolding pick_with
  pick_with_budget s role override used = pick_with s.registry s.cfg role override used

-- `NextFallback`
unfoldable pub next_in : List Text → Text → Text
next_in [] current = []
next_in (fb ∷ fbs) current = if is_blank fb || text_eq fb current then next_in fbs current else fb

unfoldable pub next_fallback : StrategyConfig → Text → Text
unfolding next_in
next_fallback cfg current = next_in cfg.fallbacks current
