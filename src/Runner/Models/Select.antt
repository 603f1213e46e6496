-- ===== src/Runner/Models/Select.antt =====
-- `selectModel`: the model that the runner asks for, and what its choice costs.
use animus_coder.Base.{
  ◌+◌, ◌≡◌, refl, ◌≢◌, inl, inr, false, some, [], ◌∷◌, arith, if◌then◌else◌, Text, text_eq,
  text_eq_iff, lookup, ok, Result-cases,
}
use animus_coder.Llm.Registry.{ModelRoute, Registry, resolve, is_expensive}
use animus_coder.Llm.Registry.Laws.{IsWellFormed, resolve_sound}
use animus_coder.Agent.Strategy.{
  StrategyConfig, Pick, new_strategy_engine, first_non_empty, pick_with_budget,
}
use animus_coder.Agent.Strategy.Budget.{
  IsRegistered, pick_with_budget-IsRegistered, pick_with_budget-err,
}
use animus_coder.Runner.Models.{Usage, spent, selected, select_model}

module _ {P : Type 0} (r : Registry P) (cfg : StrategyConfig) (u : Usage) where
  resolve_stored :
      (route : ModelRoute) (p : P)
      → route.name ≢ []
      → lookup route.name r.models ≡ some route
      → lookup route.provider r.providers ≡ some p
      → resolve r route.name ≡ ok (p, route)
  unfolding resolve
  resolve_stored route p n m q = ground (arith, text_eq_iff route.name [])

  -- What the runner gets: a name that resolves, paid for by one if it is expensive.
  abbrev pub IsPaid : Text × Usage → Type 0
  IsPaid result =
      ((y : P × ModelRoute) × (resolve r result.0 ≡ ok y) × (y.1.name ≡ result.0))
      × (result.1.expensive_used
          ≡ (if is_expensive r result.0 then u.expensive_used + 1 else u.expensive_used))

  selected-IsPaid :
      (role model : Text) (k : Pick P)
      → IsWellFormed r
      → ((n : Text) (route : ModelRoute) → lookup n r.models ≡ some route → n ≢ [])
      → IsRegistered r k
      → IsPaid (selected role model u (ok k))
  unfolding selected spent
  selected-IsPaid role model k wf named (n, p, found, _, chosen, mark) =
      let (m, q) = resolve_sound r n p k.route wf found in
      let named_so = named k.route.name k.route m in
      rw (not_empty k named_so)
        (((p, k.route), resolve_stored k.route p named_so m q, refl), ground arith)
    where
      not_empty : (k : Pick P) → k.route.name ≢ [] → text_eq k.route.name [] ≡ false
      not_empty k h = ground (arith, text_eq_iff k.route.name [])

  -- In a well-formed registry whose default resolves and where no model has the empty name: the name
  -- that `selectModel` returns resolves, to the route of that name, so that the call which follows
  -- finds its provider; and the counter grows by one exactly if that model is expensive.
  pub select_model-IsPaid :
      (role override : Text) (x : P × ModelRoute)
      → IsWellFormed r
      → ((n : Text) (route : ModelRoute) → lookup n r.models ≡ some route → n ≢ [])
      → resolve r [] ≡ ok x
      → IsPaid (select_model (some (new_strategy_engine r cfg)) role override u)
  unfolding select_model
  select_model-IsPaid role override x wf named found =
      let model = first_non_empty (override ∷ []) in
      elim (Result-cases
        (pick_with_budget (new_strategy_engine r cfg) role model u.expensive_used)) [
          | inr (e, q) ↦
              absurd (cc (pick_with_budget-err r cfg u.expensive_used role model e q, found))
          | inl (k, q) ↦ rw q (
              selected-IsPaid role model k wf named
                (pick_with_budget-IsRegistered r cfg u.expensive_used role model k q))
        ]
