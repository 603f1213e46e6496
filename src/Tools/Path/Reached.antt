-- ===== src/Tools/Path/Reached.antt =====
-- Which paths the guard accepts.
use animus_coder.Base.{
  ◌≡◌, refl, sym, ap, ◌∙◌, ◌≢◌, Bool, true, false, List, [], ◌∷◌, ◌++◌, append-nil, append_assoc,
  arith, ◌==◌, ==_iff, All, All-append, Text, text_eq, text_eq_iff, has_prefix, ok, err,
}
use mathlib.Core.List.{reverse, reverse-cons}
use animus_coder.Tools.Path.{
  slash, dot, dot_dot, split_from, clean_step, clean_parts, slashed, render, is_abs, clean,
  join_path, escapes_base, resolve,
}
use animus_coder.Tools.Path.Segments.{HasNoSlash, IsPlain}

pub split_from-part :
    (cur w s : Text) → HasNoSlash w → split_from cur (w ++ s) ≡ split_from (cur ++ w) s
unfolding split_from
split_from-part cur [] s h = rw append-nil
split_from-part cur (c ∷ w) s h =
    ground (arith, split_from-part (cur ++ c ∷ []) w s h.1, append_assoc cur (c ∷ []) w)

split_from-slashed :
    (cur : Text) (parts : List Text)
    → All IsPlain parts
    → split_from cur (slashed parts) ≡ cur ∷ parts
unfolding split_from slashed
split_from-slashed cur [] h = refl
split_from-slashed cur (part ∷ parts) h =
    ground (
      arith,
      split_from-part [] part (slashed parts) h.0.one_name,
      split_from-slashed part parts h.1,
    )

pub clean_step-plain :
    (rooted : Bool) (kept : List Text) (part : Text)
    → IsPlain part
    → clean_step rooted kept part ≡ part ∷ kept
unfolding clean_step
clean_step-plain rooted kept part h =
    ground (arith, text_eq_iff part [], text_eq_iff part dot, text_eq_iff part dot_dot)

clean_parts-plain :
    (rooted : Bool) (kept parts : List Text)
    → All IsPlain parts
    → clean_parts rooted kept parts ≡ reverse kept ++ parts
unfolding clean_parts
clean_parts-plain rooted kept [] h = rw append-nil
clean_parts-plain rooted kept (part ∷ parts) h = rw (
  clean_step-plain rooted kept part h.0,
  clean_parts-plain rooted (part ∷ kept) parts h.1,
  reverse-cons,
  append_assoc,
)

-- An empty part is skipped.
clean_parts-empty :
    (rooted : Bool) (kept parts : List Text)
    → clean_parts rooted kept ([] ∷ parts) ≡ clean_parts rooted kept parts
unfolding clean_parts clean_step text_eq
clean_parts-empty rooted kept parts = refl

slashed-append : (xs ys : List Text) → slashed (xs ++ ys) ≡ slashed xs ++ slashed ys
unfolding slashed
slashed-append [] ys = refl
slashed-append (x ∷ xs) ys = rw (slashed-append xs ys, append_assoc)

clean-relative :
    (part : Text) (parts : List Text)
    → All IsPlain (part ∷ parts)
    → (clean (render false (part ∷ parts)) ≡ render false (part ∷ parts))
      × (is_abs (render false (part ∷ parts)) ≡ false)
unfolding clean render is_abs
clean-relative [] parts h = absurd (h.0.named refl)
clean-relative (c ∷ w) parts h =
    let not_slash : (c == slash) ≡ false = ground (arith, ==_iff c slash, h.0.one_name.0) in
    let split : split_from [] ((c ∷ w) ++ slashed parts) ≡ (c ∷ w) ∷ parts =
      split_from-part [] (c ∷ w) (slashed parts) h.0.one_name
      ∙ split_from-slashed (c ∷ w) parts h.1 in
    (rw (not_slash, split, clean_parts-plain false [] ((c ∷ w) ∷ parts) h), not_slash)

clean-slashed :
    (part : Text) (parts : List Text)
    → All IsPlain (part ∷ parts)
    → clean (slashed (part ∷ parts)) ≡ slashed (part ∷ parts)
unfolding clean render is_abs slashed
clean-slashed part parts h =
    let split : split_from [] (slashed (part ∷ parts)) ≡ [] ∷ part ∷ parts =
      split_from-slashed [] (part ∷ parts) h in
    rw (split, clean_parts-empty, clean_parts-plain true [] (part ∷ parts) h)

-- The parts of a clean rooted path are read off its text.
pub clean_parts-render :
    (parts : List Text)
    → All IsPlain parts
    → clean_parts true [] (split_from [] (render true parts)) ≡ parts
unfolding render
clean_parts-render [] h = unfold clean_parts clean_step split_from text_eq in refl
clean_parts-render (part ∷ parts) h = rw (
  split_from-slashed [] (part ∷ parts) h,
  clean_parts-empty,
  clean_parts-plain true [] (part ∷ parts) h,
)

-- A doubled separator at the start is one.
clean-doubled :
    (part : Text) (parts : List Text)
    → All IsPlain (part ∷ parts)
    → clean (slash ∷ slashed (part ∷ parts)) ≡ slashed (part ∷ parts)
unfolding clean render is_abs slashed
clean-doubled part parts h =
    let split : split_from [] (slash ∷ slashed (part ∷ parts)) ≡ [] ∷ [] ∷ part ∷ parts =
      unfold split_from in
      ap (λ (ps : List Text). [] ∷ ps) (split_from-slashed [] (part ∷ parts) h) in
    rw (split, clean_parts-empty, clean_parts-empty, clean_parts-plain true [] (part ∷ parts) h)

has_prefix-append : (x s t : Text) → has_prefix (x ++ s) (x ++ t) ≡ has_prefix s t
unfolding has_prefix
has_prefix-append [] s t = refl
has_prefix-append (c ∷ x) s t = ground (arith, has_prefix-append x s t)

below :
    (bs : List Text) (part : Text) (parts : List Text)
    → has_prefix (slashed (bs ++ (part ∷ parts))) (slashed bs ++ slash ∷ []) ≡ true
below bs part parts = rw (slashed-append, has_prefix-append) (unfold has_prefix slashed in refl)

named-path : (part : Text) (parts : List Text) → IsPlain part → render false (part ∷ parts) ≢ []
unfolding render
named-path [] parts h = absurd (h.named refl)
named-path (c ∷ w) parts h = cc

not_doubled :
    (part : Text) (parts : List Text)
    → IsPlain part
    → has_prefix (slashed (part ∷ parts)) (render true [] ++ slash ∷ []) ≡ false
unfolding slashed render has_prefix
not_doubled [] parts h = absurd (h.named refl)
not_doubled (c ∷ w) parts h = ground (arith, ==_iff c slash, h.one_name.0)

longer :
    (part : Text) (parts : List Text)
    → IsPlain part
    → text_eq (slashed (part ∷ parts)) (render true []) ≡ false
unfolding slashed render text_eq
longer [] parts h = absurd (h.named refl)
longer (c ∷ w) parts h = refl

-- Below a base directory that is not the root, every relative path whose parts each name an entry is
-- accepted, and stands for these parts behind those of the base directory.
pub resolve-plain :
    (b : Text) (bs : List Text) (part : Text) (parts : List Text)
    → All IsPlain (b ∷ bs)
    → All IsPlain (part ∷ parts)
    → resolve (record { base_dir = render true (b ∷ bs) }) (render false (part ∷ parts))
      ≡ ok (render true ((b ∷ bs) ++ (part ∷ parts)))
unfolding resolve join_path
resolve-plain b bs part parts hb h =
    let p = render false (part ∷ parts) in
    let (same, relative) = clean-relative part parts h in
    let full = slashed ((b ∷ bs) ++ (part ∷ parts)) in
    let joined : render true (b ∷ bs) ++ (slash ∷ p) ≡ full =
      unfold render slashed in sym (slashed-append (b ∷ bs) (part ∷ parts)) in
    let cleaned : clean full ≡ full =
      clean-slashed b (bs ++ (part ∷ parts)) (All-append IsPlain (b ∷ bs) (part ∷ parts) hb h) in
    let inside : has_prefix full (render true (b ∷ bs) ++ slash ∷ []) ≡ true =
      unfold render in below (b ∷ bs) part parts in
    let not_empty : text_eq p [] ≡ false =
      ground (arith, text_eq_iff p [], named-path part parts h.0) in
    let result : full ≡ render true ((b ∷ bs) ++ (part ∷ parts)) = unfold render in refl in
    ground (arith, same, relative, joined, cleaned, inside, not_empty, result)

-- With the root as base directory every such path is refused, though it lies below the root: the
-- guard looks for the base directory followed by a second separator.
pub resolve_at_root :
    (part : Text) (parts : List Text)
    → All IsPlain (part ∷ parts)
    → resolve (record { base_dir = render true [] }) (render false (part ∷ parts))
      ≡ err escapes_base
unfolding resolve join_path
resolve_at_root part parts h =
    let p = render false (part ∷ parts) in
    let (same, relative) = clean-relative part parts h in
    let full = slashed (part ∷ parts) in
    let joined : render true [] ++ (slash ∷ p) ≡ slash ∷ full = unfold render slashed in refl in
    let cleaned : clean (slash ∷ full) ≡ full = clean-doubled part parts h in
    let again : clean full ≡ full = clean-slashed part parts h in
    let outside : has_prefix full (render true [] ++ slash ∷ []) ≡ false =
      not_doubled part parts h.0 in
    let not_root : text_eq full (render true []) ≡ false = longer part parts h.0 in
    let not_empty : text_eq p [] ≡ false =
      ground (arith, text_eq_iff p [], named-path part parts h.0) in
    ground (arith, same, relative, joined, cleaned, again, outside, not_root, not_empty)
