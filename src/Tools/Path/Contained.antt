-- ===== src/Tools/Path/Contained.antt =====
-- Where the paths lie that the guard accepts.
use animus_coder.Base.{
  ◌≡◌, refl, sym, ap, ◌∙◌, inl, inr, true, List, [], ◌∷◌, ◌++◌, append-nil, append_assoc, arith,
  Bool-cases, All, Text, text_eq, text_eq_iff, has_prefix, ok,
}
use mathlib.Core.Path.{ap₂}
use animus_coder.Tools.Path.{slash, slashed, render, is_abs, clean, join_path, resolve}
use animus_coder.Tools.Path.Segments.{HasNoSlash, IsPlain, clean_rooted, is_abs-render}

-- The text that follows a part begins with a separator.
abbrev AtBreak : Text → Type 0
AtBreak [] = Unit
AtBreak (c ∷ s) = c ≡ slash

slashed-AtBreak : (parts : List Text) → AtBreak (slashed parts)
unfolding slashed
slashed-AtBreak [] = tt
slashed-AtBreak (part ∷ parts) = refl

first_part :
    (y b s t : Text)
    → HasNoSlash y
    → HasNoSlash b
    → AtBreak s
    → has_prefix (y ++ s) (b ++ (slash ∷ t)) ≡ true
    → (y ≡ b) × (has_prefix s (slash ∷ t) ≡ true)
unfolding has_prefix
first_part [] [] s t hy hb hs h = (refl, h)
first_part (c ∷ y) [] s t hy hb hs h = absurd (hy.0 (ground arith))
first_part [] (d ∷ b) [] t hy hb hs h = absurd (cc h)
first_part [] (d ∷ b) (c ∷ s) t hy hb hs h = absurd (hb.0 (ground arith))
first_part (c ∷ y) (d ∷ b) s t hy hb hs h =
    let (same, rest) = first_part y b s t hy.1 hb.1 hs (ground arith) in (ground arith, rest)

ended_AtBreak : (parts : List Text) → (t : Text) × (slashed parts ++ slash ∷ [] ≡ slash ∷ t)
unfolding slashed
ended_AtBreak [] = ([], refl)
ended_AtBreak (part ∷ parts) = ((part ++ slashed parts) ++ slash ∷ [], refl)

drop_slash : (s t : Text) → has_prefix (slash ∷ s) (slash ∷ t) ≡ true → has_prefix s t ≡ true
unfolding has_prefix
drop_slash s t h = h

-- The parts of a prefix that ends in a separator are the first parts.
slashed_prefix :
    (ys bs : List Text)
    → All IsPlain ys
    → All IsPlain bs
    → has_prefix (slashed ys) (slashed bs ++ slash ∷ []) ≡ true
    → (rest : List Text) × (ys ≡ bs ++ rest) × All IsPlain rest
unfolding slashed
slashed_prefix ys [] hy hb h = (ys, refl, hy)
slashed_prefix [] (b ∷ bs) hy hb h = absurd (unfold has_prefix in cc h)
slashed_prefix (y ∷ ys) (b ∷ bs) hy hb h =
    let (t, e) = ended_AtBreak bs in
    let body : has_prefix (y ++ slashed ys) (b ++ (slashed bs ++ slash ∷ [])) ≡ true =
      rw (append_assoc b (slashed bs) (slash ∷ [])) at
        (drop_slash (y ++ slashed ys) ((b ++ slashed bs) ++ slash ∷ []) h) in
    let (same, more) =
      first_part y b (slashed ys) t hy.0.one_name hb.0.one_name (slashed-AtBreak ys)
        (rw e at body) in
    let (rest, q, plain) = slashed_prefix ys bs hy.1 hb.1 (rw e more) in
    (rest, ap₂ (λ (p : Text) (ps : List Text). p ∷ ps) same q, plain)

nothing_after : (x : Text) → ¬ (has_prefix [] (x ++ slash ∷ []) ≡ true)
unfolding has_prefix
nothing_after [] h = cc
nothing_after (c ∷ x) h = cc

render_prefix :
    (ys bs : List Text)
    → All IsPlain ys
    → All IsPlain bs
    → has_prefix (render true ys) (render true bs ++ slash ∷ []) ≡ true
    → (rest : List Text) × (ys ≡ bs ++ rest) × All IsPlain rest
unfolding render
render_prefix ys [] hy hb h = (ys, refl, hy)
render_prefix [] (b ∷ bs) hy hb h = absurd (
    nothing_after (b ++ slashed bs)
      (unfold slashed in drop_slash [] (b ++ slashed bs ++ slash ∷ []) h))
render_prefix (y ∷ ys) (b ∷ bs) hy hb h = slashed_prefix (y ∷ ys) (b ∷ bs) hy hb h

-- The base directory is a clean rooted path. Whatever the requested path, what the guard returns is
-- the base directory's parts followed by parts that each name an entry: neither empty, nor "." or
-- "..", nor with a separator inside.
pub resolve-IsContained :
    (bs : List Text) (p abs : Text)
    → All IsPlain bs
    → resolve (record { base_dir = render true bs }) p ≡ ok abs
    → (rest : List Text) × All IsPlain rest × (abs ≡ render true (bs ++ rest))
unfolding resolve join_path
resolve-IsContained bs p abs hb h =
    let joined = render true bs ++ (slash ∷ clean p) in
    let (xs, hx, e) = clean_rooted joined (is_abs-render bs (slash ∷ clean p)) in
    let again : is_abs (clean joined) ≡ true =
      rw (e, ← append-nil (render true xs)) (is_abs-render xs []) in
    let (ys, hy, q) = clean_rooted (clean joined) again in
    let is_abs_path : clean (clean joined) ≡ abs = ground arith in
    elim (Bool-cases (has_prefix abs (render true bs ++ slash ∷ []))) [
      | inl below ↦
          let (rest, same, plain) = render_prefix ys bs hy hb (rw (← q, is_abs_path) below) in
          (rest, plain, sym is_abs_path ∙ q ∙ ap (render true) same)
      | inr other ↦
          let base : text_eq abs (render true bs) ≡ true = ground arith in
          ([], tt, rw append-nil ((text_eq_iff abs (render true bs)).0 base))
    ]
