-- ===== src/Runner/Models/Fallback.antt =====
-- `pickFallbackModel`: what it returns, when it ends, and when it does not.
use animus_coder.Base.{
  ℕ, zero, suc, ◌+◌, ◌≤◌, ◌≡◌, refl, sym, ap, ◌∙◌, ◌≢◌, ◌⊎◌, inl, inr, true, false, none, some,
  List, [], ◌∷◌, arith, if◌then◌else◌, Bool-cases, Option-cases, All, Text, text_eq, text_eq_refl,
  text_eq_iff, is_blank, elem, Among→elem,
}
use animus_coder.Agent.Strategy.{StrategyEngine, StrategyConfig, next_in, next_fallback}
use animus_coder.Runner.Models.{
  Usage, failed, spent, judged, try_fallback, fallback_loop, pick_fallback_model,
}

-- A result stands for no model, or for another model than the failed one; it costs at most one.
abbrev pub IsFallback : Text → Usage → Text × Usage → Type 0
IsFallback current u r =
    ((r.0 ≡ []) ⊎ (r.0 ≢ current)) × (r.1.expensive_used ≤ u.expensive_used + 1)

module _ {P : Type 0} (s : StrategyEngine P) (role current : Text) where
  try_fallback-some :
      (fb : Text) (u : Usage) (name : Text)
      → (try_fallback s role current fb u).0 ≡ some name
      → (name ≢ current)
        × ((try_fallback s role current fb u).1.expensive_used ≤ u.expensive_used + 1)
  unfolding try_fallback judged spent failed
  try_fallback-some fb u name h = ground (arith, text_eq_iff name current)

  try_fallback-none :
      (fb : Text) (u : Usage)
      → (try_fallback s role current fb u).0 ≡ none
      → (try_fallback s role current fb u).1.expensive_used ≡ u.expensive_used
  unfolding try_fallback judged spent failed
  try_fallback-none fb u h = ground arith

  -- The verdict depends on the counter alone.
  try_fallback_same :
      (fb : Text) (u u' : Usage)
      → u.expensive_used ≡ u'.expensive_used
      → (try_fallback s role current fb u).0 ≡ (try_fallback s role current fb u').0
  unfolding try_fallback judged
  try_fallback_same fb u u' h = ground arith

  loop_sound :
      (fuel : ℕ) (tried : List Text) (fb : Text) (u : Usage) (r : Text × Usage)
      → fallback_loop fuel s role current tried fb u ≡ some r
      → IsFallback current u r
  unfolding fallback_loop
  loop_sound zero tried fb u r h = cc
  loop_sound (suc fuel) tried fb u r h = elim (Bool-cases (text_eq fb [])) [
    | inl e ↦ (inl (ground arith), ground arith)
    | inr e ↦ elim (Bool-cases (elem fb tried)) [
      | inl m ↦ loop_sound fuel tried (next_fallback s.cfg fb) u r (ground arith)
      | inr m ↦ elim (Option-cases (try_fallback s role current fb u).0) [
        | inr (name, q) ↦
            let (n, c) = try_fallback-some fb u name q in (inr (ground arith), ground arith)
        | inl q ↦
            let u' = (try_fallback s role current fb u).1 in
            let (n, c) =
              loop_sound fuel (fb ∷ tried) (next_fallback s.cfg fb) u' r (ground arith) in
            (n, ground (arith, try_fallback-none fb u q))
      ]
    ]
  ]

  -- Tried already, or refused while the counter stands where it is.
  abbrev Exhausted : Text → List Text → Usage → Type 0
  Exhausted fb tried u = (elem fb tried ≡ true) ⊎ ((try_fallback s role current fb u).0 ≡ none)

  Exhausted-later :
      (fb a : Text) (tried : List Text) (u u' : Usage)
      → u'.expensive_used ≡ u.expensive_used
      → Exhausted fb tried u
      → Exhausted fb (a ∷ tried) u'
  unfolding elem
  Exhausted-later fb a tried u u' e (inl t) = inl (ground arith)
  Exhausted-later fb a tried u u' e (inr t) = inr (try_fallback_same fb u' u e ∙ t)

  -- Two names that follow one another and are both exhausted: the loop goes round for ever.
  loop_cycle :
      (fuel : ℕ) (tried : List Text) (a b : Text) (u : Usage)
      → a ≢ []
      → b ≢ []
      → Exhausted a tried u
      → Exhausted b tried u
      → next_fallback s.cfg a ≡ b
      → next_fallback s.cfg b ≡ a
      → fallback_loop fuel s role current tried a u ≡ none
  unfolding fallback_loop elem
  loop_cycle zero tried a b u na nb ta tb ab ba = refl
  loop_cycle (suc fuel) tried a b u na nb ta tb ab ba = elim (Bool-cases (elem a tried)) [
    | inl t ↦ ground (arith, text_eq_iff a [], loop_cycle fuel tried b a u nb na tb ta ba ab)
    | inr t ↦
        let refused : (try_fallback s role current a u).0 ≡ none = ground arith in
        let u' = (try_fallback s role current a u).1 in
        let same = try_fallback-none a u refused in
        let round =
          loop_cycle fuel (a ∷ tried) b a u' nb na (Exhausted-later b a tried u u' same tb)
            (inl (rw text_eq_refl)) ba ab in
        ground (arith, text_eq_iff a [], round)
  ]

nonblank-ne-nil : (t : Text) → is_blank t ≡ false → t ≢ []
unfolding is_blank
nonblank-ne-nil t h e = cc (rw e at h)

-- The settings list two different names first, and nothing else matters of the list.
module _ (cfg : StrategyConfig) (a b : Text) (rest : List Text) where
  next_first :
      (current : Text)
      → cfg.fallbacks ≡ a ∷ b ∷ rest
      → is_blank a ≡ false
      → current ≢ a
      → next_fallback cfg current ≡ a
  unfolding next_fallback next_in
  next_first current f na ne = rw f (ground (arith, text_eq_iff a current))

  next_second : cfg.fallbacks ≡ a ∷ b ∷ rest → is_blank b ≡ false → a ≢ b → next_fallback cfg a ≡ b
  unfolding next_fallback next_in
  next_second f nb ne = rw f (ground (arith, text_eq_iff a a, text_eq_iff b a))

-- A list with one usable name has no name after it.
next_only :
    (l : List Text) (a c : Text)
    → All (λ fb. (is_blank fb ≡ true) ⊎ (fb ≡ a)) l
    → (next_in l c ≡ []) ⊎ ((next_in l c ≡ a) × (a ≢ c))
unfolding next_in
next_only [] a c h = inl refl
next_only (fb ∷ l) a c h = ground (arith, next_only l a c h.1, text_eq_iff fb c)

module _ {P : Type 0} (s : StrategyEngine P) (role current a : Text) where
  ended :
      (fuel : ℕ) (tried : List Text) (fb : Text) (u : Usage)
      → fb ≡ []
      → (r : Text × Usage) × (fallback_loop (suc fuel) s role current tried fb u ≡ some r)
  unfolding fallback_loop
  ended fuel tried fb u e = (([], u), ground (arith, text_eq_iff fb []))

  ends_from :
      (fuel : ℕ) (tried : List Text) (fb : Text) (u : Usage)
      → (fb ≡ []) ⊎ ((fb ≡ a) × (a ≢ current))
      → next_fallback s.cfg a ≡ []
      → (r : Text × Usage) × (fallback_loop (suc (suc fuel)) s role current tried fb u ≡ some r)
  ends_from fuel tried fb u (inl e) no_more = ended (suc fuel) tried fb u e
  ends_from fuel tried fb u (inr (e, _)) no_more =
      let last = next_fallback s.cfg fb in
      let stop : last ≡ [] = rw e no_more in
      let tried_again = ended fuel tried last u stop in
      let u' = (try_fallback s role current fb u).1 in
      let refused = ended fuel (fb ∷ tried) last u' stop in
      elim (Bool-cases (text_eq fb [])) [
        | inl q ↦ (([], u), unfold fallback_loop in ground arith)
        | inr q ↦ elim (Bool-cases (elem fb tried)) [
          | inl m ↦ (tried_again.0, unfold fallback_loop in ground (arith, tried_again.1))
          | inr m ↦ elim (Option-cases (try_fallback s role current fb u).0) [
            | inl v ↦ (refused.0, unfold fallback_loop in ground (arith, refused.1))
            | inr (name, v) ↦ ((name, u'), unfold fallback_loop in ground arith)
          ]
        ]
      ]

module _ {P : Type 0} (s : StrategyEngine P) (role current : Text) (u : Usage) where
  -- If a result comes back, it is no model at all or another model than the one that failed, and
  -- the counter of expensive models has grown by at most one.
  pub pick_fallback_model_sound :
      (fuel : ℕ) (r : Text × Usage)
      → pick_fallback_model fuel (some s) role current u ≡ some r
      → IsFallback current u r
  unfolding pick_fallback_model
  pick_fallback_model_sound fuel r h =
      loop_sound s role current fuel (if text_eq current [] then [] else current ∷ [])
        (next_fallback s.cfg current) u r h

  -- The settings list two different names first. If every one of these two that is not the failed
  -- model itself is refused, then the loop does not end: no fuel is enough.
  pub pick_fallback_model_diverges :
      (a b : Text) (rest : List Text) (fuel : ℕ)
      → s.cfg.fallbacks ≡ a ∷ b ∷ rest
      → is_blank a ≡ false
      → is_blank b ≡ false
      → a ≢ b
      → current ≢ []
      → (a ≡ current) ⊎ ((try_fallback s role current a u).0 ≡ none)
      → (b ≡ current) ⊎ ((try_fallback s role current b u).0 ≡ none)
      → pick_fallback_model fuel (some s) role current u ≡ none
  unfolding pick_fallback_model
  pick_fallback_model_diverges a b rest fuel f na nb ne nc ra rb =
      elim (Bool-cases (text_eq current a)) [
        | inl e ↦
            let is_a = (text_eq_iff current a).0 e in
            rw (empty_no, ap (next_fallback s.cfg) is_a ∙ ab)
              (loop_cycle s role current fuel (current ∷ []) b a u (nonblank-ne-nil b nb)
                (nonblank-ne-nil a na) (left_over b rb) (left_over a ra) ba ab)
        | inr e ↦
            let first =
              next_first s.cfg a b rest current f na (λ q. cc (rw (q, text_eq_refl) at e)) in
            rw (empty_no, first)
              (loop_cycle s role current fuel (current ∷ []) a b u (nonblank-ne-nil a na)
                (nonblank-ne-nil b nb) (left_over a ra) (left_over b rb) ab ba)
      ]
    where
      empty_no : (if text_eq current [] then [] else current ∷ []) ≡ current ∷ []
      empty_no = ground (arith, text_eq_iff current [])

      ab : next_fallback s.cfg a ≡ b
      ab = next_second s.cfg a b rest f nb ne

      ba : next_fallback s.cfg b ≡ a
      ba = next_first s.cfg a b rest b f na (λ q. ne (sym q))

      left_over :
          (c : Text)
          → (c ≡ current) ⊎ ((try_fallback s role current c u).0 ≡ none)
          → Exhausted s role current c (current ∷ []) u
      left_over c (inl q) = inl (Among→elem c (current ∷ []) (inl (sym q)))
      left_over c (inr q) = inr q

  -- If the list holds one usable name, however often, the loop ends within two rounds.
  pub pick_fallback_model_ends :
      (a : Text) (fuel : ℕ)
      → All (λ fb. (is_blank fb ≡ true) ⊎ (fb ≡ a)) s.cfg.fallbacks
      → (r : Text × Usage) × (pick_fallback_model (suc (suc fuel)) (some s) role current u ≡ some r)
  unfolding pick_fallback_model next_fallback next_in
  pick_fallback_model_ends a fuel h =
      ends_from s role current a fuel (if text_eq current [] then [] else current ∷ [])
        (next_fallback s.cfg current) u (next_only s.cfg.fallbacks a current h)
        (elim (next_only s.cfg.fallbacks a a h) [ inl e ↦ e | inr (e, n) ↦ absurd (n refl) ])
