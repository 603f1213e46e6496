-- ===== src/Tools/Filesystem/Walks/Laws.antt =====
-- internal/tools/filesystem.go: WalkFiles is a loop over the first files below the root.
use animus_coder.Base.{
  ℕ, zero, suc, ◌+◌, ◌-◌, ◌≡◌, refl, sym, ap, ◌∙◌, inl, inr, Bool, true, false, ◌&&◌, some, List,
  [], ◌∷◌, arith, leb, if◌then◌else◌, Bool-cases, take, Text, ℤ, pos_part, is_positive, ok,
}
use animus_coder.Tools.Disk.{Node, Entries, file, folder, find, parts_of}
use animus_coder.Tools.Walk.{Flow, go_on, rel, sort_node, walk_node}
use animus_coder.Tools.Walk.Laws.{
  File, Follows, ended-Follows, files_below, for_files, for_files-full, walk-Follows,
}
use animus_coder.Tools.Filesystem.{Filesystem, FsError, resolved}
use animus_coder.Tools.Filesystem.Walks.{Counted, visit_file, walk_dir, walk_files, walked}

-- The files that a limit lets through, where a limit that is not positive is none.
abbrev pub limited : ℤ → ℕ → List File → List File
limited max_files n fs = if is_positive max_files then take (pos_part max_files - n) fs else fs

-- A callback that never fails.
abbrev pub steady : {S : Type 0} → (Text → S → S) → Text → S → Flow FsError × S
steady step rel_path s = (go_on, step rel_path s)

unfoldable pub for_paths : {S : Type 0} → List Text → (Text → S → S) → List File → S → S
for_paths base step [] s = s
for_paths base step ((path, content) ∷ fs) s = for_paths base step fs (step (rel base path) s)

abbrev is_full : ℤ → ℕ → Bool
is_full max_files n = is_positive max_files && leb (pos_part max_files) n

limited_full : (z : ℤ) (n : ℕ) (fs : List File) → is_full z n ≡ true → limited z n fs ≡ []
limited_full z n fs h = elim (Bool-cases (is_positive z)) [
  | inl e ↦
      let none_left : pos_part z - n ≡ 0 = ground arith in rw e (ap (λ k. take k fs) none_left)
  | inr e ↦ absurd (ground arith)
]

limited_more :
    (z : ℤ) (n : ℕ) (f : File) (fs : List File)
    → is_full z n ≡ false
    → limited z n (f ∷ fs) ≡ f ∷ limited z (n + 1) fs
limited_more z n f fs h = elim (Bool-cases (is_positive z)) [
  | inl e ↦
      let one_less : pos_part z - n ≡ suc (pos_part z - (n + 1)) = ground arith in
      rw e (ap (λ k. take k (f ∷ fs)) one_less)
  | inr e ↦ rw e refl
]

take_nil : (k : ℕ) → ◌≡◌ {A = List File} (take k []) []
take_nil zero = refl
take_nil (suc k) = refl

limited_nil : (z : ℤ) (n : ℕ) → limited z n [] ≡ []
limited_nil z n = elim (Bool-cases (is_positive z)) [
  | inl e ↦ rw e (take_nil (pos_part z - n))
  | inr e ↦ rw e refl
]

module _ {S : Type 0} (max_files : ℤ) (base : List Text) (step : Text → S → S) where
  abbrev IsFull : Counted S → Type 0
  IsFull (n, s) = is_full max_files n ≡ true

  abbrev act : List Text → Text → Counted S → Counted S
  act path content (n, s) = if is_full max_files n then (n, s) else (n + 1, step (rel base path) s)

  act-IsFull :
      (path : List Text) (content : Text) (c : Counted S) → IsFull c → act path content c ≡ c
  act-IsFull path content (n, s) h = rw h refl

  act_more :
      (path : List Text) (content : Text) (n : ℕ) (s : S)
      → is_full max_files n ≡ false
      → act path content (n, s) ≡ (n + 1, step (rel base path) s)
  act_more path content n s h = rw h refl

  act_at_file :
      (path : List Text) (content : Text) (c : Counted S)
      → Follows IsFull
          (visit_file max_files base (steady step) path (file content) c)
          (act path content c)
  unfolding visit_file
  act_at_file path content (n, s) = elim (Bool-cases (is_full max_files n)) [
    | inl e ↦ rw e (refl, e)
    | inr e ↦ rw e refl
  ]

  act_at_folder :
      (path : List Text) (es : Entries) (c : Counted S)
      → Follows IsFull (visit_file max_files base (steady step) path (folder es) c) c
  unfolding visit_file
  act_at_folder path es (n, s) = refl

  for_files-act :
      (fs : List File) (n : ℕ) (s : S)
      → (for_files act fs (n, s)).1 ≡ for_paths base step (limited max_files n fs) s
  unfolding for_files for_paths
  for_files-act [] n s = ap (λ fs. for_paths base step fs s) (sym (limited_nil max_files n))
  for_files-act ((path, content) ∷ fs) n s = elim (Bool-cases (is_full max_files n)) [
    | inl e ↦
        ap (λ (c : Counted S). (for_files act fs c).1) (act-IsFull path content (n, s) e)
        ∙ ap (λ (c : Counted S). c.1) (for_files-full act IsFull act-IsFull fs (n, s) e)
        ∙ ap (λ gs. for_paths base step gs s)
            (sym (limited_full max_files n ((path, content) ∷ fs) e))
    | inr e ↦
        ap (λ (c : Counted S). (for_files act fs c).1) (act_more path content n s e)
        ∙ for_files-act fs (n + 1) (step (rel base path) s)
        ∙ ap (λ gs. for_paths base step gs s) (sym (limited_more max_files n (path, content) fs e))
  ]

  walk_dir-visit :
      (ps : List Text) (disk node : Node) (s : S)
      → find ps disk ≡ some node
      → walked (walk_dir (visit_file max_files base (steady step)) ps disk (0, s))
        ≡ (ok tt, for_paths base step (limited max_files 0 (files_below ps (sort_node node))) s)
  unfolding walk_dir
  walk_dir-visit ps disk node s e =
      let files = files_below ps (sort_node node) in
      let fn = visit_file max_files base (steady step) in
      rw e (
        ap walked (
          ended-Follows IsFull (walk_node fn ps (sort_node node) (0, s))
            (for_files act files (0, s))
            (walk-Follows act IsFull act-IsFull fn act_at_file act_at_folder ps (sort_node node)
              (0, s)))
        ∙ ap (λ (t : S). (ok tt, t)) (for_files-act files 0 s))

-- WalkFiles at a root that the guard admits and that exists, with a callback that never fails, calls
-- it once for each file below the root in the order of the walk, by its path relative to the base
-- directory, and for no more files than the limit, where the limit is positive.
pub walk_files-for_paths :
    {S : Type 0} (f : Filesystem) (root : Text) (max_files : ℤ) (step : Text → S → S) (disk : Node)
    (s : S) (ps : List Text) (node : Node)
    → resolved f root ≡ ok ps
    → find ps disk ≡ some node
    → walk_files f root max_files (steady step) disk s ≡ (
      ok tt,
      for_paths
          (parts_of f.guard.base_dir)
          step
          (limited max_files 0 (files_below ps (sort_node node)))
          s,
    )
unfolding walk_files
walk_files-for_paths f root max_files step disk s ps node admitted found =
    rw admitted (walk_dir-visit max_files (parts_of f.guard.base_dir) step ps disk node s found)
