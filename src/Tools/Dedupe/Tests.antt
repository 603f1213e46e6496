-- ===== src/Tools/Dedupe/Tests.antt =====
-- Checks of `dedupeStrings` at concrete lists.
use animus_coder.Base.{
  ◌≡◌, refl, ◌↔◌, inl, inr, List, [], ◌∷◌, Among, IsDistinct, Text, codes, text_eq, text_eq→ne,
}
use animus_coder.Tools.Dedupe.{dedupe_strings}
use animus_coder.Tools.Dedupe.Laws.{dedupe_strings-IsDistinct, dedupe_strings_fixed}

abbrev twice : List Text
twice = codes "a" ∷ codes "b" ∷ codes "a" ∷ []

twice_once :
    IsDistinct (dedupe_strings twice)
    × ((t : Text) → Among t (dedupe_strings twice) ↔ Among t twice)
twice_once = dedupe_strings-IsDistinct twice

abbrev once : List Text
once = codes "b" ∷ codes "a" ∷ []

once-IsDistinct : IsDistinct once
once-IsDistinct = (
  λ h. elim h [ inl e ↦ text_eq→ne (codes "a") (codes "b") (unfold text_eq in refl) e | inr z ↦ z ],
  (λ z. z, tt),
)

once_kept : dedupe_strings once ≡ once
once_kept = dedupe_strings_fixed once once-IsDistinct
