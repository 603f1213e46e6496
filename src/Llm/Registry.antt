-- ===== src/Llm/Registry.antt =====
-- internal/llm/registry.go: named models, the providers that serve them, and the expensive marks.
-- A provider is a value of any type; a temperature is counted in thousandths.
pub mod Laws
mod Tests
use animus_coder.Base.{
  Bool, false, ◌||◌, not, none, some, [], if◌then◌else◌, Text, text_eq, Dict, lookup, insert, ℤ,
  pos, Result, ok, err,
}

pub record ModelRoute : Type 0 where
  pub name : Text
  pub provider : Text
  pub model : Text
  pub temperature : ℤ
  pub max_tokens : ℤ

-- The zero value of the struct.
abbrev pub no_route : ModelRoute
no_route = record { name = []; provider = []; model = []; temperature = pos 0; max_tokens = pos 0 }

pub data ResolveError : Type 0 where
  model_not_registered : Text → ResolveError
  provider_not_registered : Text → Text → ResolveError

pub record Registry (P : Type 0) : Type 0 where
  pub providers : Dict P
  pub models : Dict ModelRoute
  pub default_model : Text
  pub expensive : Dict Bool

unfoldable pub empty : {P : Type 0} → Registry P
empty = record { providers = []; models = []; default_model = []; expensive = [] }

module _ {P : Type 0} where
  unfoldable pub mark_expensive : Registry P → Text → Bool → Registry P
  mark_expensive r id mark = record r { expensive = insert id mark r.expensive }

  -- A missing key reads as false.
  unfoldable pub is_expensive : Registry P → Text → Bool
  is_expensive r id = elim (lookup id r.expensive) [ none ↦ false | some mark ↦ mark ]

  unfoldable pub register_provider : Registry P → Text → P → Registry P
  register_provider r name p = record r { providers = insert name p r.providers }

  unfoldable pub register_model : Registry P → Text → ModelRoute → Bool → Registry P
  register_model r name route is_default = record r {
    models = insert name (record route { name = name }) r.models;
    default_model = if is_default || text_eq r.default_model [] then name else r.default_model;
  }

  -- The second half of `Resolve`: the route's provider.
  unfoldable pub resolve_provider :
      Registry P → Text → ModelRoute → Result ResolveError (P × ModelRoute)
  resolve_provider r name route = elim (lookup route.provider r.providers) [
    | none ↦ err (provider_not_registered route.provider name)
    | some p ↦ ok (p, route)
  ]

  unfoldable pub resolve : Registry P → Text → Result ResolveError (P × ModelRoute)
  unfolding resolve_provider
  resolve r model_name =
      let name = if text_eq model_name [] then r.default_model else model_name in
      elim (lookup name r.models) [
        | none ↦ err (model_not_registered name)
        | some route ↦ resolve_provider r name route
      ]
