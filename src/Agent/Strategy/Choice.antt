-- ===== src/Agent/Strategy/Choice.antt =====
-- Which model `ResolveModel` returns.
use animus_coder.Base.{
  ◌≡◌, refl, sym, ◌≢◌, ◌⊎◌, inl, inr, false, none, some, List, [], ◌∷◌, arith, Bool-cases,
  Option-cases, Among, Text, text_eq, text_eq_iff, is_blank, ok, err, Result-cases,
}
use animus_coder.Llm.Registry.{ModelRoute, ResolveError, Registry, resolve}
use animus_coder.Agent.Strategy.{
  StrategyConfig, first_non_empty, first_resolved, resolve_wanted, resolve_fallback,
}

-- The helper returns a listed value that is not blank, or the empty text.
pub first_non_empty_sound :
    (vals : List Text) (w : Text)
    → first_non_empty vals ≡ w
    → (w ≡ []) ⊎ (Among w vals × (is_blank w ≡ false))
unfolding first_non_empty
first_non_empty_sound [] w h = inl (sym h)
first_non_empty_sound (v ∷ vals) w h = elim (Bool-cases (is_blank v)) [
  | inr e ↦ inr (inl (ground arith), ground arith)
  | inl e ↦ elim (first_non_empty_sound vals w (ground arith)) [
    | inl n ↦ inl n
    | inr (m, b) ↦ inr (inr m, b)
  ]
]

module _ {P : Type 0} (r : Registry P) where
  -- The first fallback that resolves is a listed one, and none before it resolves.
  pub first_resolved-some :
      (fbs : List Text) (x : P × ModelRoute)
      → first_resolved r fbs ≡ some x
      → (fb : Text) × Among fb fbs × (resolve r fb ≡ ok x)
  unfolding first_resolved
  first_resolved-some [] x h = cc
  first_resolved-some (fb ∷ fbs) x h = elim (Result-cases (resolve r fb)) [
    | inl (found, e) ↦ (fb, inl refl, ground arith)
    | inr (_, e) ↦ let (g, m, q) = first_resolved-some fbs x (ground arith) in (g, inr m, q)
  ]

  pub first_resolved-none :
      (fbs : List Text) (fb : Text) (x : P × ModelRoute)
      → first_resolved r fbs ≡ none
      → Among fb fbs
      → resolve r fb ≢ ok x
  unfolding first_resolved
  first_resolved-none [] fb x h m = elim m [ ]
  first_resolved-none (g ∷ fbs) fb x h (inl e) = ground arith
  first_resolved-none (g ∷ fbs) fb x h (inr m) = ground (arith, first_resolved-none fbs fb x)

  -- The wanted model is chosen if it resolves.
  pub resolve_wanted_first :
      (cfg : StrategyConfig) (id : Text) (x : P × ModelRoute)
      → id ≢ []
      → resolve r id ≡ ok x
      → resolve_wanted r cfg id ≡ ok x
  unfolding resolve_wanted
  resolve_wanted_first cfg id x n h = ground (arith, text_eq_iff id [])

  -- `ResolveModel` fails only if the registry's own default does not resolve.
  pub resolve_wanted_err :
      (cfg : StrategyConfig) (id : Text) (e : ResolveError)
      → resolve_wanted r cfg id ≡ err e
      → resolve r [] ≡ err e
  unfolding resolve_wanted
  resolve_wanted_err cfg id e h = ground arith

  resolve_fallback_ok :
      (cfg : StrategyConfig) (x : P × ModelRoute)
      → resolve_fallback r cfg ≡ ok x
      → (n : Text) × (resolve r n ≡ ok x)
  unfolding resolve_fallback
  resolve_fallback_ok cfg x h = elim (Option-cases (first_resolved r cfg.fallbacks)) [
    | inl e ↦ ([], ground arith)
    | inr (y, e) ↦ let (fb, m, z) = first_resolved-some cfg.fallbacks y e in (fb, ground arith)
  ]

  -- Whatever comes back was resolved in the registry.
  pub resolve_wanted_ok :
      (cfg : StrategyConfig) (id : Text) (x : P × ModelRoute)
      → resolve_wanted r cfg id ≡ ok x
      → (n : Text) × (resolve r n ≡ ok x)
  unfolding resolve_wanted
  resolve_wanted_ok cfg id x h = elim (Bool-cases (text_eq id [])) [
    | inl e ↦ resolve_fallback_ok cfg x (ground arith)
    | inr e ↦ elim (Result-cases (resolve r id)) [
      | inl (y, q) ↦ (id, ground arith)
      | inr (y, q) ↦ resolve_fallback_ok cfg x (ground arith)
    ]
  ]
