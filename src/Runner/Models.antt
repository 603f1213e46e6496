-- ===== src/Runner/Models.antt =====
-- internal/rpc/agent/runner.go: `selectModel` and `pickFallbackModel`. Log lines are not modelled.
-- The loop over the fallbacks takes fuel.
pub mod Select
pub mod Fallback
mod Tests
use animus_coder.Base.{
  ℕ, zero, suc, ◌+◌, ◌||◌, Option, none, some, List, [], ◌∷◌, if◌then◌else◌, Text, text_eq, elem,
  Result, ok, err,
}
use animus_coder.Metrics.{Metrics, record_model_usage, record_model_failure}
use animus_coder.Llm.Registry.{ResolveError}
use animus_coder.Agent.Strategy.{
  StrategyEngine, Pick, first_non_empty, pick_with_budget, next_fallback,
}

-- What the two functions change: the caller's counter of expensive models, and the metrics.
pub record Usage : Type 0 where
  pub expensive_used : ℕ
  pub metrics : Option Metrics

unfoldable pub failed : Usage → Text → Text → Usage
failed u role model = record u { metrics = record_model_failure u.metrics role model }

module _ {P : Type 0} where
  -- `if isExp { *expensiveUsed++ }` and the usage counter.
  unfoldable pub spent : Usage → Text → Pick P → Usage
  spent u role k = record {
    expensive_used = if k.expensive then u.expensive_used + 1 else u.expensive_used;
    metrics = record_model_usage u.metrics role k.route.name;
  }

  -- `selectModel` behind its nil test and the call of `PickWithBudget`.
  unfoldable pub selected : Text → Text → Usage → Result ResolveError (Pick P) → Text × Usage
  selected role model u (err e) = (model, failed u role model)
  selected role model u (ok k) =
      if text_eq k.route.name [] then (model, u) else (k.route.name, spent u role k)

  unfoldable pub select_model : Option (StrategyEngine P) → Text → Text → Usage → Text × Usage
  select_model none role override u = (first_non_empty (override ∷ []), u)
  select_model (some s) role override u =
      let model = first_non_empty (override ∷ []) in
      selected role model u (pick_with_budget s role model u.expensive_used)

  -- One round of the loop on a fallback that is not yet tried: `some` returns, `none` continues.
  unfoldable pub judged :
      Text → Text → Text → Usage → Result ResolveError (Pick P) → Option Text × Usage
  judged role current fb u (err e) = (none, failed u role fb)
  judged role current fb u (ok k) =
      if text_eq k.route.name [] || text_eq k.route.name current
      then (none, u)
      else (some k.route.name, spent u role k)

  unfoldable pub try_fallback : StrategyEngine P → Text → Text → Text → Usage → Option Text × Usage
  try_fallback s role current fb u =
      judged role current fb u (pick_with_budget s role fb u.expensive_used)

  -- `for fb := …; fb != ""; fb = NextFallback(fb)`; `none` means that the fuel ran out.
  unfoldable pub fallback_loop :
      ℕ → StrategyEngine P → Text → Text → List Text → Text → Usage → Option (Text × Usage)
  fallback_loop zero s role current tried fb u = none
  fallback_loop (suc fuel) s role current tried fb u =
      let again = fallback_loop fuel s role current tried (next_fallback s.cfg fb) u in
      let (verdict, u') = try_fallback s role current fb u in
      let onward = fallback_loop fuel s role current (fb ∷ tried) (next_fallback s.cfg fb) u' in
      if text_eq fb []
      then some ([], u)
      else if elem fb tried
      then again
      else elim verdict [ some name ↦ some (name, u') | none ↦ onward ]

  unfoldable pub pick_fallback_model :
      ℕ → Option (StrategyEngine P) → Text → Text → Usage → Option (Text × Usage)
  pick_fallback_model fuel none role current u = some ([], u)
  pick_fallback_model fuel (some s) role current u =
      let tried = if text_eq current [] then [] else current ∷ [] in
      fallback_loop fuel s role current tried (next_fallback s.cfg current) u
