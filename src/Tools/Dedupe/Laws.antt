-- ===== src/Tools/Dedupe/Laws.antt =====
-- What the removal of repeated strings returns.
use animus_coder.Base.{
  ◌≡◌, refl, sym, ◌∙◌, subst, ◌↔◌, ◌⊎◌, inl, inr, List, [], ◌∷◌, ◌++◌, append-nil, append_assoc,
  Bool-cases, Among, Among-append_left, Among-append_right, Among-push, IsDistinct, IsDistinct-push,
  elem-false, Text, elem, elem→Among,
}
use animus_coder.Tools.Dedupe.{dedupe_loop, dedupe_strings}

-- The seen keys are the values kept so far.
record Keeps (seen out : List Text) : Type 0 where
  seen_out : (t : Text) → Among t seen → Among t out
  out_seen : (t : Text) → Among t out → Among t seen

Keeps-push : (seen out : List Text) (v : Text) → Keeps seen out → Keeps (v ∷ seen) (out ++ v ∷ [])
Keeps-push seen out v k = record { seen_out = forth; out_seen = back }
  where
    forth : (t : Text) → Among t (v ∷ seen) → Among t (out ++ v ∷ [])
    forth t (inl e) = Among-append_right t out (v ∷ []) (inl e)
    forth t (inr m) = Among-append_left t out (v ∷ []) (k.seen_out t m)

    back : (t : Text) → Among t (out ++ v ∷ []) → Among t (v ∷ seen)
    back t m = elim (Among-push t v out m) [ inl a ↦ inr (k.out_seen t a) | inr e ↦ inl e ]

-- What the loop returns, for any start.
record IsDeduped (out values result : List Text) : Type 0 where
  pub distinct : IsDistinct result
  pub complete : (t : Text) → (Among t out ⊎ Among t values) → Among t result
  pub sound : (t : Text) → Among t result → Among t out ⊎ Among t values

dedupe_loop-IsDeduped :
    (seen out values : List Text)
    → Keeps seen out
    → IsDistinct out
    → IsDeduped out values (dedupe_loop seen out values)
unfolding dedupe_loop
dedupe_loop-IsDeduped seen out [] k d = record {
  distinct = d;
  complete = λ t m. elim m [ inl a ↦ a | inr z ↦ absurd z ];
  sound = λ t a. inl a;
}
dedupe_loop-IsDeduped seen out (v ∷ values) k d = elim (Bool-cases (elem v seen)) [
  | inl e ↦
      let h = dedupe_loop-IsDeduped seen out values k d in
      let old : Among v out = k.seen_out v (elem→Among v seen e) in
      rw e (record {
        distinct = h.distinct;
        complete = λ t m. h.complete t (elim m [
          | inl a ↦ inl a
          | inr b ↦ elim b [ inl q ↦ inl (subst (λ x. Among x out) q old) | inr a ↦ inr a ]
        ]);
        sound = λ t a. elim (h.sound t a) [ inl b ↦ inl b | inr b ↦ inr (inr b) ];
      })
  | inr e ↦
      let fresh : ¬ Among v out = λ m. elem-false v seen e (k.out_seen v m) in
      let h =
        dedupe_loop-IsDeduped (v ∷ seen) (out ++ v ∷ []) values (Keeps-push seen out v k)
          (IsDistinct-push out v d fresh) in
      rw e (record {
        distinct = h.distinct;
        complete = λ t m. h.complete t (elim m [
          | inl a ↦ inl (Among-append_left t out (v ∷ []) a)
          | inr b ↦ elim b [
            | inl q ↦ inl (Among-append_right t out (v ∷ []) (inl q))
            | inr a ↦ inr a
          ]
        ]);
        sound = λ t a. elim (h.sound t a) [
          | inr b ↦ inr (inr b)
          | inl b ↦ elim (Among-push t v out b) [ inl c ↦ inl c | inr q ↦ inr (inl q) ]
        ];
      })
]

dedupe_loop_fixed :
    (seen out values : List Text)
    → Keeps seen out
    → IsDistinct values
    → ((t : Text) → Among t values → ¬ Among t out)
    → dedupe_loop seen out values ≡ out ++ values
unfolding dedupe_loop
dedupe_loop_fixed seen out [] k d n = rw append-nil
dedupe_loop_fixed seen out (v ∷ values) k d n = elim (Bool-cases (elem v seen)) [
  | inl e ↦ absurd (n v (inl refl) (k.seen_out v (elem→Among v seen e)))
  | inr e ↦ rw e (
      dedupe_loop_fixed (v ∷ seen) (out ++ v ∷ []) values (Keeps-push seen out v k) d.1 apart
      ∙ append_assoc out (v ∷ []) values)
]
  where
    apart : (t : Text) → Among t values → ¬ Among t (out ++ v ∷ [])
    apart t m a = elim (Among-push t v out a) [
      | inl b ↦ n t (inr m) b
      | inr q ↦ d.0 (subst (λ x. Among x values) (sym q) m)
    ]

no_keys : Keeps [] []
no_keys = record { seen_out = λ t m. m; out_seen = λ t m. m }

-- The result holds exactly the given values, each once.
pub dedupe_strings-IsDistinct :
    (values : List Text)
    → IsDistinct (dedupe_strings values)
      × ((t : Text) → Among t (dedupe_strings values) ↔ Among t values)
unfolding dedupe_strings
dedupe_strings-IsDistinct values =
    let h = dedupe_loop-IsDeduped [] [] values no_keys tt in
    (
      h.distinct,
      λ t. (λ m. elim (h.sound t m) [ inl z ↦ absurd z | inr a ↦ a ], λ m. h.complete t (inr m)),
    )

-- A list in which nothing stands twice is left as it is, in its order.
pub dedupe_strings_fixed : (values : List Text) → IsDistinct values → dedupe_strings values ≡ values
unfolding dedupe_strings
dedupe_strings_fixed values d = dedupe_loop_fixed [] [] values no_keys d (λ t m a. a)
