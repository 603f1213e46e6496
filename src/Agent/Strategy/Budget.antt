-- ===== src/Agent/Strategy/Budget.antt =====
-- The budget of expensive models in `PickWithBudget`.
use animus_coder.Base.{
  ℕ, ◌≤◌, ◌<◌, ◌≡◌, refl, subst, ◌≢◌, ◌⊎◌, inl, inr, true, false, ◌&&◌, not, some, [], arith,
  Bool-cases, Option-cases, Text, text_eq, text_eq_iff, pos_part, is_positive, ok, err,
  Result-cases,
}
use animus_coder.Llm.Registry.{ModelRoute, ResolveError, Registry, resolve, is_expensive}
use animus_coder.Agent.Strategy.{
  StrategyConfig, new_strategy_engine, Pick, wanted_model, first_resolved, resolve_wanted, pick_of,
  over_budget, budget_fallback, budget_default, pick_with, pick_with_budget,
}
use animus_coder.Agent.Strategy.Choice.{first_resolved-some, resolve_wanted_ok, resolve_wanted_err}

-- The choice is what the registry resolves some name to, and the flag is the model's mark.
abbrev pub IsRegistered : {P : Type 0} → Registry P → Pick P → Type 0
IsRegistered {P} r k =
    (n : Text) × (p : P) × (resolve r n ≡ ok (p, k.route))
    × (k.provider ≡ some p)
    × (k.chosen ≡ k.route.name)
    × (k.expensive ≡ is_expensive r k.chosen)

module _ {P : Type 0} (r : Registry P) (cfg : StrategyConfig) (used : ℕ) where
  pick_of-IsRegistered :
      (n : Text) (p : P) (route : ModelRoute)
      → resolve r n ≡ ok (p, route)
      → IsRegistered r (pick_of r p route)
  unfolding pick_of
  pick_of-IsRegistered n p route h = (n, p, h, refl, refl, refl)

  fallback-IsRegistered :
      (k : Pick P) → IsRegistered r k → IsRegistered r (budget_fallback r cfg used k)
  unfolding budget_fallback
  fallback-IsRegistered k h = elim (Bool-cases (over_budget cfg used k)) [
    | inr e ↦ rw e h
    | inl e ↦ elim (Option-cases (first_resolved r cfg.fallbacks)) [
      | inl q ↦ rw (e, q) h
      | inr ((p, route), q) ↦
          let (fb, m, z) = first_resolved-some r cfg.fallbacks (p, route) q in
          rw (e, q) (pick_of-IsRegistered fb p route z)
    ]
  ]

  default-IsRegistered :
      (k : Pick P) → IsRegistered r k → IsRegistered r (budget_default r cfg used k)
  unfolding budget_default
  default-IsRegistered k h =
      elim (Bool-cases (over_budget cfg used k && not (text_eq cfg.default_model []))) [
        | inr e ↦ rw e h
        | inl e ↦ elim (Result-cases (resolve r cfg.default_model)) [
          | inl ((p, route), q) ↦ rw (e, q) (pick_of-IsRegistered cfg.default_model p route q)
          | inr (x, q) ↦ rw (e, q) h
        ]
      ]

  pick_with-IsRegistered :
      (role override : Text) (k : Pick P)
      → pick_with (some r) cfg role override used ≡ ok k
      → IsRegistered r k
  unfolding pick_with
  pick_with-IsRegistered role override k h =
      elim (Result-cases (resolve_wanted r cfg (wanted_model cfg role override))) [
        | inr (x, q) ↦ absurd (ground arith)
        | inl ((p, route), q) ↦
            let (n, z) = resolve_wanted_ok r cfg (wanted_model cfg role override) (p, route) q in
            let first =
              fallback-IsRegistered (pick_of r p route) (pick_of-IsRegistered n p route z) in
            let last =
              default-IsRegistered (budget_fallback r cfg used (pick_of r p route)) first in
            subst (IsRegistered r) (ground arith) last
      ]

  over_fallback :
      (k : Pick P) (x : P × ModelRoute)
      → over_budget cfg used k ≡ true
      → over_budget cfg used (budget_fallback r cfg used k) ≡ true
      → first_resolved r cfg.fallbacks ≡ some x
      → is_expensive r x.1.name ≡ true
  unfolding budget_fallback over_budget pick_of
  over_fallback k x h h' q = ground arith

  last_expensive :
      (k : Pick P)
      → is_positive cfg.max_expensive ≡ true
      → pos_part cfg.max_expensive ≤ used
      → (budget_default r cfg used k).expensive ≡ true
      → (over_budget cfg used k ≡ true)
        × ((x : P × ModelRoute)
            → cfg.default_model ≢ []
            → resolve r cfg.default_model ≡ ok x
            → is_expensive r x.1.name ≡ true)
  unfolding budget_default over_budget pick_of
  last_expensive k m u h = (ground arith, λ x d q. ground (arith, text_eq_iff cfg.default_model []))

  over_first :
      (k : Pick P)
      → over_budget cfg used (budget_fallback r cfg used k) ≡ true
      → over_budget cfg used k ≡ true
  unfolding budget_fallback
  over_first k h = ground arith

  under :
      (p : P) (route : ModelRoute)
      → (is_positive cfg.max_expensive ≡ false)
        ⊎ ((used < pos_part cfg.max_expensive) ⊎ (is_expensive r route.name ≡ false))
      → over_budget cfg used (pick_of r p route) ≡ false
  unfolding over_budget pick_of
  under p route h = ground arith

  unspent :
      (k : Pick P)
      → over_budget cfg used k ≡ false
      → budget_default r cfg used (budget_fallback r cfg used k) ≡ k
  unfolding budget_default budget_fallback
  unspent k h = ground arith

  -- Over the whole function: with a spent budget (a positive limit that is reached), a choice that is
  -- still expensive means that nothing cheaper was at hand: the first fallback that resolves, if any,
  -- is expensive, and so is the default model of the settings, if it is given and resolves.
  pub pick_with_budget-limit :
      (role override : Text) (k : Pick P)
      → is_positive cfg.max_expensive ≡ true
      → pos_part cfg.max_expensive ≤ used
      → pick_with_budget (new_strategy_engine r cfg) role override used ≡ ok k
      → k.expensive ≡ true
      → ((x : P × ModelRoute)
          → first_resolved r cfg.fallbacks ≡ some x
          → is_expensive r x.1.name ≡ true)
        × ((x : P × ModelRoute)
            → cfg.default_model ≢ []
            → resolve r cfg.default_model ≡ ok x
            → is_expensive r x.1.name ≡ true)
  unfolding pick_with_budget
  pick_with_budget-limit role override k m u h e =
      elim (Result-cases (resolve_wanted r cfg (wanted_model cfg role override))) [
        | inr (x, q) ↦ absurd (ground arith)
        | inl ((p, route), q) ↦ limit p route (ground arith)
      ]
    where
      limit :
          (p : P) (route : ModelRoute)
          → budget_default r cfg used (budget_fallback r cfg used (pick_of r p route)) ≡ k
          → ((x : P × ModelRoute)
              → first_resolved r cfg.fallbacks ≡ some x
              → is_expensive r x.1.name ≡ true)
            × ((x : P × ModelRoute)
                → cfg.default_model ≢ []
                → resolve r cfg.default_model ≡ ok x
                → is_expensive r x.1.name ≡ true)
      limit p route z =
          let k0 = pick_of r p route in
          let k1 = budget_fallback r cfg used k0 in
          let (over1, by_default) = last_expensive k1 m u (rw z e) in
          (λ x q'. over_fallback k0 x (over_first k0 over1) over1 q', by_default)

  -- Within the budget the choice is what `ResolveModel` returns, with its mark.
  pub pick_with_budget-within :
      (role override : Text) (p : P) (route : ModelRoute)
      → resolve_wanted r cfg (wanted_model cfg role override) ≡ ok (p, route)
      → (is_positive cfg.max_expensive ≡ false)
        ⊎ ((used < pos_part cfg.max_expensive) ⊎ (is_expensive r route.name ≡ false))
      → pick_with_budget (new_strategy_engine r cfg) role override used ≡ ok (pick_of r p route)
  unfolding pick_with_budget
  pick_with_budget-within role override p route h within =
      ground (arith, unspent (pick_of r p route) (under p route within))

  -- Every choice is a model of the registry: its provider and route are what the registry resolves
  -- some name to, the chosen name is the route's, and the flag is the mark of that name.
  pub pick_with_budget-IsRegistered :
      (role override : Text) (k : Pick P)
      → pick_with_budget (new_strategy_engine r cfg) role override used ≡ ok k
      → IsRegistered r k
  unfolding pick_with_budget
  pick_with_budget-IsRegistered role override k h = pick_with-IsRegistered role override k h

  -- No choice fails unless the registry's own default does not resolve.
  pub pick_with_budget-err :
      (role override : Text) (e : ResolveError)
      → pick_with_budget (new_strategy_engine r cfg) role override used ≡ err e
      → resolve r [] ≡ err e
  unfolding pick_with_budget
  pick_with_budget-err role override e h =
      resolve_wanted_err r cfg (wanted_model cfg role override) e (ground arith)
