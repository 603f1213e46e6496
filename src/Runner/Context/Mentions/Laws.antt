-- ===== src/Runner/Context/Mentions/Laws.antt =====
-- What `discoverContextPaths` keeps of the paths that it tries.
use animus_coder.Base.{
  ◌≤◌, ◌<◌, ◌≡◌, refl, subst, inl, inr, true, false, List, [], ◌∷◌, ◌++◌, arith, leb, leb→le,
  Bool-cases, length, length-append, Among, Among-append_left, Among-append_right, IsDistinct,
  IsDistinct-push, All, All-append, Text, text_eq, trim_space, elem, elem-false, elem→Among,
}
use animus_coder.Tools.Disk.{Node}
use animus_coder.Tools.Filesystem.{Filesystem, stat}
use animus_coder.Runner.Context.Mentions.{
  extract_mentioned_paths, default_paths, found, keep_existing, discover_context_paths,
}

module _ (fs : Filesystem) (disk : Node) where
  abbrev pub Exists : Text → Type 0
  Exists path = found (stat fs path disk) ≡ true

  -- At most twelve paths, each once, which all exist.
  abbrev pub AreFound : List Text → Type 0
  AreFound paths = (length paths ≤ 12) × IsDistinct paths × All Exists paths

  -- A path that exists is only left out where there are twelve.
  abbrev pub Covers : List Text → List Text → Type 0
  Covers paths tried =
      length paths < 12
      → (c : Text) → Among c tried
      → text_eq (trim_space c) [] ≡ false
      → Exists (trim_space c)
      → Among (trim_space c) paths

  -- What the loop adds to `out`, for any start.
  record Grown (out tried paths : List Text) : Type 0 where
    pub sound : AreFound paths
    pub keeps : (t : Text) → Among t out → Among t paths
    pub covers : Covers paths tried

  -- One more candidate that is known to be kept, or not to be wanted.
  Grown-cons :
      (out out' tried paths : List Text) (c : Text)
      → ((t : Text) → Among t out → Among t out')
      → (text_eq (trim_space c) [] ≡ false → Exists (trim_space c) → Among (trim_space c) out')
      → Grown out' tried paths
      → Grown out (c ∷ tried) paths
  Grown-cons out out' tried paths c more wanted g = record {
    sound = g.sound;
    keeps = λ t m. g.keeps t (more t m);
    covers = λ l d m e x. elim m [
      | inl q ↦ g.keeps (trim_space d) (
          subst
            (λ (y : Text).
              text_eq (trim_space y) [] ≡ false → Exists (trim_space y) → Among (trim_space y) out')
            q wanted e x)
      | inr a ↦ g.covers l d a e x
    ];
  }

  AreFound-push :
      (out : List Text) (c : Text)
      → AreFound out
      → ¬ Among c out
      → length out < 12
      → Exists c
      → AreFound (out ++ c ∷ [])
  AreFound-push out c (l, d, a) n h x = (
    omega (arith, length-append out (c ∷ [])),
    IsDistinct-push out c d n,
    All-append Exists out (c ∷ []) a (x, tt),
  )

  keep_existing-Grown :
      (out tried : List Text) → AreFound out → Grown out tried (keep_existing fs disk out tried)
  unfolding keep_existing
  keep_existing-Grown out [] h = record { sound = h; keeps = λ t m. m; covers = λ l c m. absurd m }
  keep_existing-Grown out (raw ∷ rest) h =
      let c = trim_space raw in
      let past = keep_existing fs disk out rest in
      let skip = Grown-cons out out rest past raw (λ t m. m) in
      elim (Bool-cases (text_eq c [])) [
        | inl e ↦ rw e (skip (λ f x. cc) (keep_existing-Grown out rest h))
        | inr e ↦ elim (Bool-cases (elem c out)) [
          | inl m ↦ rw (e, m) (skip (λ f x. elem→Among c out m) (keep_existing-Grown out rest h))
          | inr m ↦ elim (Bool-cases (leb 12 (length out))) [
            | inl b ↦
                rw (e, m, b)
                  (record {
                    sound = h;
                    keeps = λ t a. a;
                    covers = λ l d a q x. absurd (omega (arith, leb→le 12 (length out) b, l));
                  })
            | inr b ↦ elim (Bool-cases (found (stat fs c disk))) [
              | inl x ↦
                  rw (e, m, b, x)
                    (Grown-cons out (out ++ c ∷ []) rest
                      (keep_existing fs disk (out ++ c ∷ []) rest) raw
                      (λ t a. Among-append_left t out (c ∷ []) a)
                      (λ f y. Among-append_right c out (c ∷ []) (inl refl))
                      (keep_existing-Grown (out ++ c ∷ []) rest
                        (AreFound-push out c h (elem-false c out m) (ground arith) x)))
              | inr x ↦ rw (e, m, b, x) (skip (λ f y. cc) (keep_existing-Grown out rest h))
            ]
          ]
        ]
      ]

-- The paths that are discovered for a prompt are at most twelve, each stands once, and each exists.
-- Where there are fewer, every path that the prompt mentions or that is tried for every prompt is
-- among them, without the space around it, if it is not blank and exists.
pub discover_context_paths-AreFound :
    (fs : Filesystem) (prompt : Text) (disk : Node)
    → AreFound fs disk (discover_context_paths fs prompt disk)
      × Covers fs disk
          (discover_context_paths fs prompt disk)
          (extract_mentioned_paths prompt ++ default_paths)
unfolding discover_context_paths
discover_context_paths-AreFound fs prompt disk =
    let g =
      keep_existing-Grown fs disk [] (extract_mentioned_paths prompt ++ default_paths)
        (omega arith, tt, tt) in
    (g.sound, g.covers)
