-- ===== src/Base/Texts.antt =====
-- Go strings: lists of bytes, and what package strings does with them (on ASCII letters and space).
use Prim.Native.Nat.{ℕ, ◌+◌}
use Prim.Native.Char.{code}
use Prim.Native.String.{String}
use mathlib.Core.Path.{◌≡◌, refl, sym}
use mathlib.Core.Logic.{◌↔◌, ◌≢◌, inl, inr}
use mathlib.Core.Bool.{Bool, true, false, ◌&&◌, ◌||◌}
use mathlib.Core.List.{List, [], ◌∷◌, ◌++◌, map}
use native.Mathlib.Omega.{arith}
use animus_coder.Base.Tests.{leb, ◌==◌, if◌then◌else◌, Bool-cases}
use animus_coder.Base.Lists.{Among}

abbrev pub Text : Type 0
Text = List ℕ

-- The bytes of a literal.
abbrev pub codes : String → Text
codes String.[] = []
codes (String.◌∷◌ c s) = code c ∷ codes s

-- `a == b` on strings.
unfoldable pub text_eq : Text → Text → Bool
text_eq [] [] = true
text_eq [] (y ∷ ys) = false
text_eq (x ∷ xs) [] = false
text_eq (x ∷ xs) (y ∷ ys) = x == y && text_eq xs ys

text_eq→eq : (a b : Text) → text_eq a b ≡ true → a ≡ b
unfolding text_eq
text_eq→eq [] [] h = refl
text_eq→eq [] (y ∷ ys) h = ground arith
text_eq→eq (x ∷ xs) [] h = ground arith
text_eq→eq (x ∷ xs) (y ∷ ys) h = ground (arith, text_eq→eq xs ys)

pub text_eq_refl : (a : Text) → text_eq a a ≡ true
unfolding text_eq
text_eq_refl [] = refl
text_eq_refl (x ∷ xs) = ground (arith, text_eq_refl xs)

eq→text_eq : (a b : Text) → a ≡ b → text_eq a b ≡ true
eq→text_eq a b e = rw e (text_eq_refl b)

pub text_eq_iff : (a b : Text) → (text_eq a b ≡ true) ↔ (a ≡ b)
text_eq_iff a b = (text_eq→eq a b, eq→text_eq a b)

pub text_eq→ne : (a b : Text) → text_eq a b ≡ false → a ≢ b
text_eq→ne a b h e = cc (text_eq_refl b, rw e at h)

-- unicode.IsSpace on the bytes below 128.
unfoldable pub is_space : ℕ → Bool
is_space c = (leb 9 c && leb c 13) || c == 32

unfoldable pub trim_left : Text → Text
trim_left [] = []
trim_left (c ∷ s) = let rest = trim_left s in if is_space c then rest else c ∷ s

unfoldable pub keep_right : ℕ → Text → Text
keep_right c [] = if is_space c then [] else c ∷ []
keep_right c (d ∷ s) = c ∷ d ∷ s

unfoldable pub trim_right : Text → Text
trim_right [] = []
trim_right (c ∷ s) = keep_right c (trim_right s)

-- strings.TrimSpace
unfoldable pub trim_space : Text → Text
unfolding trim_left trim_right keep_right is_space
trim_space s = trim_right (trim_left s)

-- strings.TrimSpace(s) == "": every byte is space.
unfoldable pub is_blank : Text → Bool
unfolding is_space
is_blank [] = true
is_blank (c ∷ s) = is_space c && is_blank s

trim_right-ne-nil :
    (c : ℕ) (s : Text) → is_space c ≡ false → text_eq (trim_right (c ∷ s)) [] ≡ false
unfolding trim_right keep_right text_eq
trim_right-ne-nil c s h = ground arith

-- The test on blank text is the comparison of the trimmed text with the empty one.
pub is_blank-trim_space : (s : Text) → text_eq (trim_space s) [] ≡ is_blank s
unfolding trim_space text_eq is_blank
is_blank-trim_space [] = refl
is_blank-trim_space (c ∷ s) = elim (Bool-cases (is_space c)) [
  | inl e ↦ rw e (is_blank-trim_space s)
  | inr e ↦ rw e (trim_right-ne-nil c s e)
]

-- strings.ToLower
unfoldable pub lower_byte : ℕ → ℕ
lower_byte c = if leb b'A' c && leb c b'Z' then c + 32 else c

unfoldable pub to_lower : Text → Text
unfolding lower_byte
to_lower s = map lower_byte s

push_word : Text → List Text → List Text
push_word [] rest = rest
push_word (c ∷ cur) rest = (c ∷ cur) ∷ rest

-- The words of `s`, the first one behind the letters read so far.
fields_from : Text → Text → List Text
fields_from cur [] = push_word cur []
fields_from cur (c ∷ s) =
    let stop = push_word cur (fields_from [] s) in
    let more = fields_from (cur ++ c ∷ []) s in if is_space c then stop else more

-- strings.Fields
unfoldable pub fields : Text → List Text
unfolding push_word fields_from is_space
fields s = fields_from [] s

-- s[:len(p)] == p
unfoldable pub has_prefix : Text → Text → Bool
has_prefix s [] = true
has_prefix [] (p ∷ ps) = false
has_prefix (c ∷ s) (p ∷ ps) = c == p && has_prefix s ps

-- strings.Contains(s, sub)
unfoldable pub contains : Text → Text → Bool
unfolding has_prefix
contains [] sub = has_prefix [] sub
contains (c ∷ s) sub = has_prefix (c ∷ s) sub || contains s sub

-- strings.HasSuffix(s, sub)
unfoldable pub has_suffix : Text → Text → Bool
has_suffix [] sub = text_eq [] sub
has_suffix (c ∷ s) sub = text_eq (c ∷ s) sub || has_suffix s sub

join_more : Text → List Text → Text
join_more sep [] = []
join_more sep (x ∷ xs) = sep ++ (x ++ join_more sep xs)

-- strings.Join
unfoldable pub join : List Text → Text → Text
unfolding join_more
join [] sep = []
join (x ∷ xs) sep = x ++ join_more sep xs

-- A loop over a list of strings that leaves at the first one equal to `t`.
unfoldable pub elem : Text → List Text → Bool
elem t [] = false
elem t (x ∷ xs) = text_eq t x || elem t xs

pub elem→Among : (t : Text) (xs : List Text) → elem t xs ≡ true → Among t xs
unfolding elem
elem→Among t [] h = ground arith
elem→Among t (x ∷ xs) h = elim (Bool-cases (text_eq t x)) [
  | inl e ↦ inl (sym (text_eq→eq t x e))
  | inr e ↦ inr (elem→Among t xs (ground arith))
]

pub Among→elem : (t : Text) (xs : List Text) → Among t xs → elem t xs ≡ true
unfolding elem
Among→elem t [] h = elim h [ ]
Among→elem t (x ∷ xs) (inl e) = rw (e, text_eq_refl)
Among→elem t (x ∷ xs) (inr h) = ground (arith, Among→elem t xs h)

pub elem-false : (t : Text) (xs : List Text) → elem t xs ≡ false → ¬ Among t xs
elem-false t xs h m = cc (Among→elem t xs m)
