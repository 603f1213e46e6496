-- ===== src/Llm/Builder/Complete.antt =====
-- The registry that `BuildRegistryFromConfig` makes of valid settings.
use animus_coder.Base.{
  ◌≡◌, refl, ◌≢◌, ◌⊎◌, inl, inr, true, ◌||◌, some, [], ◌∷◌, arith, if◌then◌else◌, Bool-cases,
  Option-cases, is_some, Among, All, All-Among, Text, text_eq, text_eq_refl, text_eq_iff, Dict,
  lookup, lookup-insert, Result, ok,
}
use animus_coder.Config.{ProviderConfig, ModelConfig, Config}
use animus_coder.Config.Validate.Sound.{IsValid, ModelIsValid}
use animus_coder.Llm.Registry.{
  ModelRoute, Registry, empty, mark_expensive, register_provider, register_model, resolve_provider,
  resolve,
}
use animus_coder.Llm.Builder.{
  Provider, build_provider, register_providers, route_of, add_model, register_models,
  resolved_default, build_registry,
}

abbrev pub IsOk : {E A : Type 0} → Result E A → Type 0
IsOk {A = A} r = (a : A) × (r ≡ ok a)

-- A kind of provider that the builder knows.
abbrev pub HasKnownType : Text × ProviderConfig → Type 0
HasKnownType (name, p) = IsOk (build_provider name p)

register_providers-IsOk :
    (ps : Dict ProviderConfig) (r : Registry Provider)
    → All HasKnownType ps
    → (r' : Registry Provider) × (register_providers ps r ≡ ok r')
      × (r'.models ≡ r.models)
      × (r'.default_model ≡ r.default_model)
      × ((n : Text)
          → (is_some (lookup n ps) ≡ true) ⊎ (is_some (lookup n r.providers) ≡ true)
          → is_some (lookup n r'.providers) ≡ true)
unfolding register_providers register_provider lookup
register_providers-IsOk [] r h =
    (r, refl, refl, refl, λ n k. elim k [ inl e ↦ absurd (cc e) | inr e ↦ e ])
register_providers-IsOk ((name, p) ∷ ps) r ((built, e), h) =
    let (r', ran, same, default, all) =
      register_providers-IsOk ps (register_provider r name built) h in
    (r', ground arith, same, default, λ n k. all n (step n k))
  where
    step :
        (n : Text)
        → (is_some (lookup n ((name, p) ∷ ps)) ≡ true) ⊎ (is_some (lookup n r.providers) ≡ true)
        → (is_some (lookup n ps) ≡ true)
          ⊎ (is_some (lookup n (register_provider r name built).providers) ≡ true)
    step n k = elim (Bool-cases (text_eq name n)) [
      | inl e ↦ inr (ground (arith, lookup-insert name n built r.providers))
      | inr e ↦ elim k [
        | inl q ↦ inl (ground arith)
        | inr q ↦ inr (ground (arith, lookup-insert name n built r.providers))
      ]
    ]

-- Every stored route has a stored provider, and a default that is set is stored.
record IsBound (r : Registry Provider) : Type 0 where
  bound :
      (n : Text) (route : ModelRoute)
      → lookup n r.models ≡ some route
      → is_some (lookup route.provider r.providers) ≡ true
  default_known : r.default_model ≢ [] → is_some (lookup r.default_model r.models) ≡ true

-- What adding a model leaves.
add_model-models :
    (name : Text) (m : ModelConfig) (r : Registry Provider) (n : Text)
    → lookup n (add_model name m r).models
      ≡ (if text_eq name n then some (record (route_of m) { name = name }) else lookup n r.models)
unfolding add_model register_model mark_expensive
add_model-models name m r n =
    ground (arith, lookup-insert name n (record (route_of m) { name = name }) r.models)

add_model-providers :
    (name : Text) (m : ModelConfig) (r : Registry Provider)
    → (add_model name m r).providers ≡ r.providers
unfolding add_model register_model mark_expensive
add_model-providers name m r = ground arith

add_model-default :
    (name : Text) (m : ModelConfig) (r : Registry Provider)
    → (add_model name m r).default_model
      ≡ (if m.is_default || text_eq r.default_model [] then name else r.default_model)
unfolding add_model register_model mark_expensive
add_model-default name m r = ground arith

-- The default of a registry to which a model was added is stored.
add_model-default_known :
    (name : Text) (m : ModelConfig) (r : Registry Provider)
    → IsBound r
    → let after = add_model name m r in is_some (lookup after.default_model after.models) ≡ true
add_model-default_known name m r b =
    let after = add_model name m r in
    elim (Bool-cases (m.is_default || text_eq r.default_model [])) [
      | inl e ↦
          ground
            (arith, add_model-default name m r, add_model-models name m r name, text_eq_refl name)
      | inr e ↦ ground (
        arith,
        add_model-default name m r,
        add_model-models name m r r.default_model,
        text_eq_iff r.default_model [],
        b.default_known,
      )
    ]

add_model-IsBound :
    (name : Text) (m : ModelConfig) (r : Registry Provider)
    → is_some (lookup m.provider r.providers) ≡ true
    → IsBound r
    → IsBound (add_model name m r)
unfolding route_of
add_model-IsBound name m r k b = record {
  bound = λ n route h.
      rw (add_model-providers name m r)
        (ground (arith, add_model-models name m r n, b.bound n route));
  default_known = λ h. add_model-default_known name m r b;
}

-- What the loop over the models leaves, for a registry whose default is stored if there is one.
register_models-IsBound :
    (ms : Dict ModelConfig) (r : Registry Provider)
    → IsBound r
    → ((n : Text) (m : ModelConfig)
        → Among (n, m) ms
        → is_some (lookup m.provider r.providers) ≡ true)
    → IsBound (register_models ms r)
unfolding register_models
register_models-IsBound [] r b h = b
register_models-IsBound ((name, m) ∷ ms) r b h =
    register_models-IsBound ms (add_model name m r)
      (add_model-IsBound name m r (h name m (inl refl)) b)
      (λ n m' a. rw (add_model-providers name m r) (h n m' (inr a)))

register_models-stored :
    (ms : Dict ModelConfig) (r : Registry Provider) (n : Text)
    → (is_some (lookup n ms) ≡ true) ⊎ (is_some (lookup n r.models) ≡ true)
    → is_some (lookup n (register_models ms r).models) ≡ true
unfolding register_models lookup
register_models-stored [] r n (inr h) = h
register_models-stored [] r n (inl h) = absurd (cc h)
register_models-stored ((name, m) ∷ ms) r n h =
    register_models-stored ms (add_model name m r) n (elim (Bool-cases (text_eq name n)) [
      | inl e ↦ inr (ground (arith, add_model-models name m r n))
      | inr e ↦ elim h [
        | inl q ↦ inl (ground arith)
        | inr q ↦ inr (ground (arith, add_model-models name m r n))
      ]
    ])

register_models-default :
    (ms : Dict ModelConfig) (r : Registry Provider)
    → IsBound r
    → ((n : Text) (m : ModelConfig)
        → Among (n, m) ms
        → is_some (lookup m.provider r.providers) ≡ true)
    → ms ≢ []
    → let after = register_models ms r in is_some (lookup after.default_model after.models) ≡ true
unfolding register_models
register_models-default [] r b h given = absurd (given refl)
register_models-default ((name, m) ∷ []) r b h given = add_model-default_known name m r b
register_models-default ((name, m) ∷ x ∷ ms) r b h given =
    register_models-default (x ∷ ms) (add_model name m r)
      (add_model-IsBound name m r (h name m (inl refl)) b)
      (λ n m' a. rw (add_model-providers name m r) (h n m' (inr a))) (λ e. absurd (cc e))

-- A stored name is found, with the provider of its route.
resolve-IsOk :
    (r : Registry Provider) (name : Text)
    → IsBound r
    → is_some (lookup (if text_eq name [] then r.default_model else name) r.models) ≡ true
    → IsOk (resolve r name)
unfolding resolve resolve_provider
resolve-IsOk r name b h =
    let key = if text_eq name [] then r.default_model else name in
    elim (Option-cases (lookup key r.models)) [
      | inl e ↦ absurd (ground arith)
      | inr (route, e) ↦ elim (Option-cases (lookup route.provider r.providers)) [
        | inl q ↦ absurd (ground (arith, b.bound key route e))
        | inr (p, q) ↦ ((p, route), ground arith)
      ]
    ]

built_registry :
    (c : Config)
    → IsValid c
    → (r : Registry Provider) → r.models ≡ []
    → r.default_model ≡ []
    → ((n : Text) → is_some (lookup n c.providers) ≡ true → is_some (lookup n r.providers) ≡ true)
    → let after = register_models c.models r in
      IsBound after × (is_some (lookup after.default_model after.models) ≡ true)
unfolding lookup
built_registry c v r none_yet no_default all =
    let b : IsBound r = record {
      bound = λ n route h. absurd (ground arith);
      default_known = λ h. absurd (h no_default);
    } in
    let h : (n : Text) (m : ModelConfig)
        → Among (n, m) c.models
        → is_some (lookup m.provider r.providers) ≡ true =
      λ n m a.
        all m.provider (All-Among (ModelIsValid c.providers) c.models (n, m) v.models_bound a).1 in
    (register_models-IsBound c.models r b h, register_models-default c.models r b h v.models_given)

-- Valid settings whose providers are of known types: the registry is built, its default model
-- resolves, and so does every configured model.
pub build_registry-resolves :
    (c : Config)
    → IsValid c
    → All HasKnownType c.providers
    → (r : Registry Provider) × (build_registry c ≡ ok r)
      × IsOk (resolve r [])
      × ((n : Text) → is_some (lookup n c.models) ≡ true → IsOk (resolve r n))
unfolding build_registry resolved_default empty text_eq
build_registry-resolves c v known =
    let (r, ran, no_models, no_default, all) = register_providers-IsOk c.providers empty known in
    let after = register_models c.models r in
    let (b, stored) = built_registry c v r no_models no_default (λ n h. all n (inl h)) in
    let (x, found) = resolve-IsOk after [] b stored in
    (
      after,
      ground arith,
      (x, found),
      λ n h. resolve-IsOk after n b (elim (Bool-cases (text_eq n [])) [
        | inl e ↦ rw e stored
        | inr e ↦ rw e (register_models-stored c.models r n (inl h))
      ]),
    )
