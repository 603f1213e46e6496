-- ===== src/Tools/Path/Segments.antt =====
-- The parts of a path, and what filepath.Clean keeps of a rooted one.
use animus_coder.Base.{
  ◌≡◌, refl, ◌≢◌, inl, inr, true, false, ◌||◌, List, [], ◌∷◌, ◌++◌, arith, ◌==◌, Bool-cases, All,
  All-append, Text, text_eq, text_eq_iff,
}
use mathlib.Core.List.{reverse_aux}
use animus_coder.Tools.Path.{
  slash, dot, dot_dot, split_from, go_up, clean_step, clean_parts, slashed, render, is_abs, clean,
}

abbrev pub HasNoSlash : Text → Type 0
HasNoSlash = All (λ c. c ≢ slash)

-- A part that names an entry of a directory.
pub record IsPlain (part : Text) : Type 0 where
  pub one_name : HasNoSlash part
  pub named : part ≢ []
  pub not_here : part ≢ dot
  pub not_up : part ≢ dot_dot

split_from-HasNoSlash : (cur s : Text) → HasNoSlash cur → All HasNoSlash (split_from cur s)
unfolding split_from
split_from-HasNoSlash cur [] h = (h, tt)
split_from-HasNoSlash cur (c ∷ s) h = elim (Bool-cases (c == slash)) [
  | inl e ↦ rw e (h, split_from-HasNoSlash [] s tt)
  | inr e ↦ rw e (
      split_from-HasNoSlash (cur ++ c ∷ []) s
        (All-append (λ c. c ≢ slash) cur (c ∷ []) h (ground arith, tt)))
]

reverse_aux-IsPlain :
    (xs ys : List Text) → All IsPlain xs → All IsPlain ys → All IsPlain (reverse_aux xs ys)
reverse_aux-IsPlain [] ys hx hy = hy
reverse_aux-IsPlain (x ∷ xs) ys hx hy = reverse_aux-IsPlain xs (x ∷ ys) hx.1 (hx.0, hy)

clean_step-IsPlain :
    (kept : List Text) (part : Text)
    → All IsPlain kept
    → HasNoSlash part
    → All IsPlain (clean_step true kept part)
unfolding clean_step go_up
clean_step-IsPlain kept part h n = elim (Bool-cases (text_eq part [] || text_eq part dot)) [
  | inl e ↦ rw e h
  | inr e ↦ elim (Bool-cases (text_eq part dot_dot)) [
    | inl q ↦ rw (e, q) (up kept h)
    | inr q ↦
        rw (e, q)
          (
            record {
              one_name = n;
              named = ground (arith, text_eq_iff part []);
              not_here = ground (arith, text_eq_iff part dot);
              not_up = ground (arith, text_eq_iff part dot_dot);
            },
            h,
          )
  ]
]
  where
    apart : (top : Text) → top ≢ dot_dot → text_eq top dot_dot ≡ false
    apart top n = ground (arith, text_eq_iff top dot_dot)

    up : (kept : List Text) → All IsPlain kept → All IsPlain (go_up true kept)
    up [] h = tt
    up (top ∷ rest) h = rw (apart top h.0.not_up) h.1

clean_parts-IsPlain :
    (kept parts : List Text)
    → All IsPlain kept
    → All HasNoSlash parts
    → All IsPlain (clean_parts true kept parts)
unfolding clean_parts
clean_parts-IsPlain kept [] h n = reverse_aux-IsPlain kept [] h tt
clean_parts-IsPlain kept (part ∷ parts) h n =
    clean_parts-IsPlain (clean_step true kept part) parts (clean_step-IsPlain kept part h n.0) n.1

-- What filepath.Clean makes of a rooted path: every part of the result names an entry.
pub clean_rooted :
    (s : Text)
    → is_abs s ≡ true
    → (parts : List Text) × All IsPlain parts × (clean s ≡ render true parts)
unfolding clean
clean_rooted [] h = absurd (unfold is_abs in cc h)
clean_rooted (c ∷ s) h = (
  clean_parts true [] (split_from [] (c ∷ s)),
  clean_parts-IsPlain [] (split_from [] (c ∷ s)) tt (split_from-HasNoSlash [] (c ∷ s) tt),
  rw h,
)

pub is_abs-render : (parts : List Text) (s : Text) → is_abs (render true parts ++ s) ≡ true
unfolding is_abs render slashed
is_abs-render [] s = refl
is_abs-render (part ∷ parts) s = refl
