-- ===== src/Semantic/Rank/Laws.antt =====
-- internal/semantic/engine.go: the sorted hits, and the best of them.
use animus_coder.Base.{
  ℕ, zero, suc, ◌<◌, ◌≡◌, refl, ap, ◌↔◌, ◌⊎◌, inl, inr, true, false, List, [], ◌∷◌, arith, ◌==◌,
  Bool-cases, length, take, Among, All, All-Among,
}
use animus_coder.Base.Order.{text_lt, text_lt_asymm, text_lt_neg_trans}
use animus_coder.Semantic.Rank.{Hit, ahead, insert_hit, rank}

-- No later hit is ahead of an earlier one.
abbrev pub IsRanked : List Hit → Type 0
IsRanked [] = Unit {0}
IsRanked (x ∷ xs) = All (λ y. ahead y x ≡ false) xs × IsRanked xs

ahead_asymm : (a b : Hit) → ahead a b ≡ true → ahead b a ≡ false
unfolding ahead
ahead_asymm a b h = ground (arith, text_lt_asymm a.path b.path)

ahead_neg_trans : (a b c : Hit) → ahead a b ≡ false → ahead b c ≡ false → ahead a c ≡ false
unfolding ahead
ahead_neg_trans a b c h k = ground (arith, text_lt_neg_trans a.path b.path c.path)

All-neg_trans :
    (x h : Hit) (xs : List Hit)
    → ahead x h ≡ false
    → All (λ y. ahead y x ≡ false) xs
    → All (λ y. ahead y h ≡ false) xs
All-neg_trans x h [] e a = tt
All-neg_trans x h (y ∷ ys) e a = (ahead_neg_trans y x h a.0 e, All-neg_trans x h ys e a.1)

All-insert_hit :
    (P : Hit → Type 0) (h : Hit) (xs : List Hit) → P h → All P xs → All P (insert_hit h xs)
unfolding insert_hit
All-insert_hit P h [] p a = (p, tt)
All-insert_hit P h (x ∷ xs) p a = elim (Bool-cases (ahead x h)) [
  | inl e ↦ rw e (a.0, All-insert_hit P h xs p a.1)
  | inr e ↦ rw e (p, a)
]

insert_hit-IsRanked : (h : Hit) (xs : List Hit) → IsRanked xs → IsRanked (insert_hit h xs)
unfolding insert_hit
insert_hit-IsRanked h [] r = (tt, tt)
insert_hit-IsRanked h (x ∷ xs) r = elim (Bool-cases (ahead x h)) [
  | inl e ↦ rw e (
    All-insert_hit (λ y. ahead y x ≡ false) h xs (ahead_asymm x h e) r.0,
    insert_hit-IsRanked h xs r.1,
  )
  | inr e ↦ rw e ((e, All-neg_trans x h xs e r.0), r)
]

pub rank-IsRanked : (hs : List Hit) → IsRanked (rank hs)
unfolding rank
rank-IsRanked [] = tt
rank-IsRanked (h ∷ hs) = insert_hit-IsRanked h (rank hs) (rank-IsRanked hs)

Among-insert_hit : (a h : Hit) (xs : List Hit) → Among a (insert_hit h xs) ↔ ((h ≡ a) ⊎ Among a xs)
unfolding insert_hit
Among-insert_hit a h [] = (λ m. m, λ m. m)
Among-insert_hit a h (x ∷ xs) = elim (Bool-cases (ahead x h)) [
  | inl e ↦ rw e (ground (arith, Among-insert_hit a h xs))
  | inr e ↦ rw e (λ m. m, λ m. m)
]

pub Among-rank : (a : Hit) (hs : List Hit) → Among a (rank hs) ↔ Among a hs
unfolding rank
Among-rank a [] = (λ m. m, λ m. m)
Among-rank a (h ∷ hs) = ground (arith, Among-insert_hit a h (rank hs), Among-rank a hs)

All-take : (P : Hit → Type 0) (n : ℕ) (hs : List Hit) → All P hs → All P (take n hs)
All-take P zero hs a = tt
All-take P (suc n) [] a = tt
All-take P (suc n) (h ∷ hs) a = (a.0, All-take P n hs a.1)

pub take-IsRanked : (n : ℕ) (hs : List Hit) → IsRanked hs → IsRanked (take n hs)
take-IsRanked zero hs r = tt
take-IsRanked (suc n) [] r = tt
take-IsRanked (suc n) (h ∷ hs) r =
    (All-take (λ y. ahead y h ≡ false) n hs r.0, take-IsRanked n hs r.1)

pub Among-take : (a : Hit) (n : ℕ) (hs : List Hit) → Among a (take n hs) → Among a hs
Among-take a zero hs m = absurd m
Among-take a (suc n) [] m = absurd m
Among-take a (suc n) (h ∷ hs) (inl e) = inl e
Among-take a (suc n) (h ∷ hs) (inr m) = inr (Among-take a n hs m)

-- A hit that is cut off is ahead of none that is kept, and as many are kept as may be.
abbrev pub IsCut : Hit → ℕ → List Hit → Type 0
IsCut a n kept = (length kept ≡ n) × All (λ y. ahead a y ≡ false) kept

pub take-IsCut :
    (a : Hit) (n : ℕ) (hs : List Hit)
    → IsRanked hs
    → Among a hs
    → Among a (take n hs) ⊎ IsCut a n (take n hs)
take-IsCut a zero hs r m = inr (refl, tt)
take-IsCut a (suc n) [] r m = absurd m
take-IsCut a (suc n) (h ∷ hs) r (inl e) = inl (inl e)
take-IsCut a (suc n) (h ∷ hs) r (inr m) = elim (take-IsCut a n hs r.1 m) [
  | inl kept ↦ inl (inr kept)
  | inr cut ↦ inr (ap suc cut.0, (All-Among (λ y. ahead y h ≡ false) hs a r.0 m, cut.1))
]

-- A hit stands rightly before another: by its score, or where the scores are equal by its path.
abbrev pub Precedes : Hit → Hit → Type 0
Precedes x y = (y.score < x.score) ⊎ ((y.score ≡ x.score) × (text_lt y.path x.path ≡ false))

ahead-Precedes : (x y : Hit) → ahead y x ≡ false → Precedes x y
unfolding ahead
ahead-Precedes x y h = elim (Bool-cases (y.score == x.score)) [
  | inl e ↦ inr (ground arith, ground arith)
  | inr e ↦ inl (ground arith)
]

-- Every hit precedes the later ones.
abbrev pub IsOrdered : List Hit → Type 0
IsOrdered [] = Unit {0}
IsOrdered (x ∷ xs) = All (Precedes x) xs × IsOrdered xs

All-Precedes : (x : Hit) (xs : List Hit) → All (λ y. ahead y x ≡ false) xs → All (Precedes x) xs
All-Precedes x [] a = tt
All-Precedes x (y ∷ ys) a = (ahead-Precedes x y a.0, All-Precedes x ys a.1)

pub IsRanked-IsOrdered : (hs : List Hit) → IsRanked hs → IsOrdered hs
IsRanked-IsOrdered [] r = tt
IsRanked-IsOrdered (h ∷ hs) r = (All-Precedes h hs r.0, IsRanked-IsOrdered hs r.1)

-- A hit that is left out: as many are kept as may be, and each precedes it.
abbrev pub IsLeftOut : Hit → ℕ → List Hit → Type 0
IsLeftOut a n kept = (length kept ≡ n) × All (λ y. Precedes y a) kept

All-behind :
    (a : Hit) (xs : List Hit) → All (λ y. ahead a y ≡ false) xs → All (λ y. Precedes y a) xs
All-behind a [] h = tt
All-behind a (y ∷ ys) h = (ahead-Precedes y a h.0, All-behind a ys h.1)

pub IsCut-IsLeftOut : (a : Hit) (n : ℕ) (kept : List Hit) → IsCut a n kept → IsLeftOut a n kept
IsCut-IsLeftOut a n kept c = (c.0, All-behind a kept c.1)
