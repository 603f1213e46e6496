-- ===== src/Llm/Registry/Laws.antt =====
-- What the operations of internal/llm/registry.go keep, and what `Resolve` returns after them.
use animus_coder.Base.{
  ◌≡◌, ◌≢◌, inl, inr, Bool, true, ◌||◌, some, [], arith, if◌then◌else◌, Bool-cases, is_some, Text,
  text_eq, text_eq_refl, text_eq_iff, lookup, lookup-insert, ok,
}
use animus_coder.Llm.Registry.{
  ModelRoute, Registry, register_model, register_provider, mark_expensive, resolve, is_expensive,
}

-- Every route carries the name it is stored under, and a default that is set is a stored model.
pub record IsWellFormed {P : Type 0} (r : Registry P) : Type 0 where
  pub named : (n : Text) (route : ModelRoute) → lookup n r.models ≡ some route → route.name ≡ n
  pub default_known : r.default_model ≢ [] → is_some (lookup r.default_model r.models) ≡ true

module _ {P : Type 0} where
  named_step :
      (r : Registry P) (name : Text) (route : ModelRoute) (d : Bool)
      → IsWellFormed r
      → (n : Text) (rt : ModelRoute) → lookup n (register_model r name route d).models ≡ some rt
      → rt.name ≡ n
  unfolding register_model
  named_step r name route d wf n rt h = ground (
    arith,
    lookup-insert name n (record route { name = name }) r.models,
    text_eq_iff name n,
    wf.named n rt,
  )

  default_step :
      (r : Registry P) (name : Text) (route : ModelRoute) (d : Bool)
      → IsWellFormed r
      → (register_model r name route d).default_model ≢ []
      → is_some (
          lookup
            (register_model r name route d).default_model
            (register_model r name route d).models)
        ≡ true
  unfolding register_model
  default_step r name route d wf h = elim (Bool-cases (d || text_eq r.default_model [])) [
    | inl e ↦ rw (e, lookup-insert, text_eq_refl)
    | inr e ↦
        rw (e, lookup-insert) (ground (arith, text_eq_iff r.default_model [], wf.default_known))
  ]

  -- `RegisterModel` keeps the registry well formed: each route carries the name of its key, and the
  -- default that is set is a registered model.
  pub register_model-IsWellFormed :
      (r : Registry P) (name : Text) (route : ModelRoute) (d : Bool)
      → IsWellFormed r
      → IsWellFormed (register_model r name route d)
  register_model-IsWellFormed r name route d wf = record {
    named = named_step r name route d wf;
    default_known = default_step r name route d wf;
  }

  pub register_provider-IsWellFormed :
      (r : Registry P) (name : Text) (p : P)
      → IsWellFormed r
      → IsWellFormed (register_provider r name p)
  unfolding register_provider
  register_provider-IsWellFormed r name p wf = record {
    named = wf.named;
    default_known = wf.default_known;
  }

  pub mark_expensive-IsWellFormed :
      (r : Registry P) (name : Text) (b : Bool)
      → IsWellFormed r
      → IsWellFormed (mark_expensive r name b)
  unfolding mark_expensive
  mark_expensive-IsWellFormed r name b wf = record {
    named = wf.named;
    default_known = wf.default_known;
  }

  -- A provider and then a model of it are registered: `Resolve` of the model's name, if that is not
  -- empty, returns this provider and the route under this name, whatever was registered before.
  pub resolve-register_model :
      (r : Registry P) (name : Text) (route : ModelRoute) (p : P) (d : Bool)
      → name ≢ []
      → resolve (register_model (register_provider r route.provider p) name route d) name
        ≡ ok (p, record route { name = name })
  unfolding resolve register_model register_provider
  resolve-register_model r name route p d h = ground (
    arith,
    text_eq_iff name [],
    lookup-insert name name (record route { name = name }) r.models,
    lookup-insert route.provider route.provider p r.providers,
    text_eq_refl name,
    text_eq_refl route.provider,
  )

  -- The empty name stands for the default model.
  pub resolve-default : (r : Registry P) → resolve r [] ≡ resolve r r.default_model
  unfolding resolve text_eq
  resolve-default r = ground arith

  -- What `Resolve` returns is stored in the registry.
  pub resolve_sound :
      (r : Registry P) (name : Text) (p : P) (route : ModelRoute)
      → IsWellFormed r
      → resolve r name ≡ ok (p, route)
      → (lookup route.name r.models ≡ some route) × (lookup route.provider r.providers ≡ some p)
  unfolding resolve
  resolve_sound r name p route wf h =
      let key = if text_eq name [] then r.default_model else name in
      ground (arith, wf.named key route)

  -- A mark is what `IsExpensive` reads back, and a model that was never marked is not expensive.
  pub is_expensive-mark :
      (r : Registry P) (id other : Text) (b : Bool)
      → is_expensive (mark_expensive r id b) other
        ≡ (if text_eq id other then b else is_expensive r other)
  unfolding is_expensive mark_expensive
  is_expensive-mark r id other b = ground (arith, lookup-insert id other b r.expensive)
