-- ===== src/Llm/Registry/Tests.antt =====
-- Checks of internal/llm/registry.go at concrete inputs.
use animus_coder.Base.{
  ℕ, ◌≡◌, refl, true, false, some, [], ◌∷◌, arith, codes, text_eq, text_eq_iff, text_eq→ne, lookup,
  ok,
}
use animus_coder.Llm.Registry.{
  ModelRoute, no_route, Registry, register_provider, register_model, resolve,
}
use animus_coder.Llm.Registry.Laws.{
  IsWellFormed, register_model-IsWellFormed, resolve-register_model, resolve_sound,
}

abbrev nothing : Registry ℕ
nothing = record { providers = []; models = []; default_model = []; expensive = [] }

nothing-IsWellFormed : IsWellFormed nothing
unfolding lookup
nothing-IsWellFormed = record {
  named = λ n route h. absurd (cc h);
  default_known = λ h. absurd (h refl);
}

abbrev route : ModelRoute
route = record no_route { provider = codes "p" }

register_model-IsWellFormed_example : IsWellFormed (register_model nothing (codes "a") route false)
register_model-IsWellFormed_example =
    register_model-IsWellFormed nothing (codes "a") route false nothing-IsWellFormed

resolve-register_model_example :
    resolve
      (register_model (register_provider nothing (codes "p") 7) (codes "a") route true)
      (codes "a")
    ≡ ok (7, record route { name = codes "a" })
resolve-register_model_example =
    resolve-register_model nothing (codes "a") route 7 true
      (text_eq→ne (codes "a") [] (unfold text_eq in refl))

abbrev one : Registry ℕ
one = record nothing {
  providers = (codes "p", 7) ∷ [];
  models = (codes "a", record route { name = codes "a" }) ∷ [];
  default_model = codes "a";
}

one-IsWellFormed : IsWellFormed one
unfolding lookup
one-IsWellFormed = record {
  named = λ n rt h. ground (arith, text_eq_iff (codes "a") n);
  default_known = λ _. unfold text_eq in refl;
}

sound_resolution :
    (lookup (codes "a") one.models ≡ some (record route { name = codes "a" }))
    × (lookup (codes "p") one.providers ≡ some 7)
sound_resolution =
    resolve_sound one [] 7 (record route { name = codes "a" }) one-IsWellFormed
      (unfold resolve lookup text_eq in refl)
