-- ===== src/Base/Lists.antt =====
-- Lists measured by the native numbers, and predicates on their elements by recursion.
use Prim.Native.Nat.{ℕ, zero, suc, ◌+◌, min}
use mathlib.Core.Path.{◌≡◌, sym, subst}
use mathlib.Core.Logic.{◌⊎◌, inl, inr}
use mathlib.Core.List.{List, [], ◌∷◌, ◌++◌}
use native.Mathlib.Omega.{arith}

module _ {ℓ} {A : Type ℓ} where
  abbrev pub length : List A → ℕ
  length [] = 0
  length (x ∷ xs) = suc (length xs)

  abbrev pub take : ℕ → List A → List A
  take zero xs = []
  take (suc n) [] = []
  take (suc n) (x ∷ xs) = x ∷ take n xs

  pub length-append : (xs ys : List A) → length (xs ++ ys) ≡ length xs + length ys
  length-append [] ys = omega arith
  length-append (x ∷ xs) ys = omega (arith, length-append xs ys)

  pub length-take : (n : ℕ) (xs : List A) → length (take n xs) ≡ min n (length xs)
  length-take zero xs = omega arith
  length-take (suc n) [] = omega arith
  length-take (suc n) (x ∷ xs) = omega (arith, length-take n xs)

module _ {A : Type 0} where
  -- `Among a xs`: the value `a` stands in `xs`.
  abbrev pub Among : A → List A → Type 0
  Among a [] = ⊥
  Among a (x ∷ xs) = (x ≡ a) ⊎ Among a xs

  pub Among-append_left : (a : A) (xs ys : List A) → Among a xs → Among a (xs ++ ys)
  Among-append_left a [] ys h = elim h [ ]
  Among-append_left a (x ∷ xs) ys (inl e) = inl e
  Among-append_left a (x ∷ xs) ys (inr h) = inr (Among-append_left a xs ys h)

  pub Among-append_right : (a : A) (xs ys : List A) → Among a ys → Among a (xs ++ ys)
  Among-append_right a [] ys h = h
  Among-append_right a (x ∷ xs) ys h = inr (Among-append_right a xs ys h)

  pub Among-append_cases : (a : A) (xs ys : List A) → Among a (xs ++ ys) → Among a xs ⊎ Among a ys
  Among-append_cases a [] ys h = inr h
  Among-append_cases a (x ∷ xs) ys (inl e) = inl (inl e)
  Among-append_cases a (x ∷ xs) ys (inr h) = elim (Among-append_cases a xs ys h) [
    | inl m ↦ inl (inr m)
    | inr m ↦ inr m
  ]

  -- The values of a list that has grown by one.
  pub Among-push : (a v : A) (xs : List A) → Among a (xs ++ v ∷ []) → Among a xs ⊎ (v ≡ a)
  Among-push a v xs h = elim (Among-append_cases a xs (v ∷ []) h) [
    | inl m ↦ inl m
    | inr m ↦ elim m [ inl e ↦ inr e | inr z ↦ absurd z ]
  ]

  -- No value stands twice.
  abbrev pub IsDistinct : List A → Type 0
  IsDistinct [] = Unit
  IsDistinct (x ∷ xs) = (¬ Among x xs) × IsDistinct xs

  pub IsDistinct-push :
      (out : List A) (v : A) → IsDistinct out → ¬ Among v out → IsDistinct (out ++ v ∷ [])
  IsDistinct-push [] v d n = (λ m. m, tt)
  IsDistinct-push (x ∷ out) v d n = (
    λ m. elim (Among-push x v out m) [ inl a ↦ d.0 a | inr e ↦ n (inl (sym e)) ],
    IsDistinct-push out v d.1 (λ a. n (inr a)),
  )

abbrev pub All {ℓ κ} : {A : Type ℓ} → (A → Type κ) → List A → Type κ
All P [] = Unit
All P (x ∷ xs) = P x × All P xs

pub All-append {ℓ κ} :
    {A : Type ℓ} (P : A → Type κ) (xs ys : List A) → All P xs → All P ys → All P (xs ++ ys)
All-append P [] ys hx hy = hy
All-append P (x ∷ xs) ys hx hy = (hx.0, All-append P xs ys hx.1 hy)

pub All-Among {κ} :
    {A : Type 0} (P : A → Type κ) (xs : List A) (a : A) → All P xs → Among a xs → P a
All-Among P [] a h m = absurd m
All-Among P (x ∷ xs) a h (inl e) = subst P e h.0
All-Among P (x ∷ xs) a h (inr m) = All-Among P xs a h.1 m
