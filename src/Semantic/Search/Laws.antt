-- ===== src/Semantic/Search/Laws.antt =====
-- internal/semantic/engine.go: a search returns the best hits among the files walked.
use animus_coder.Base.{
  ℕ, ◌≤◌, ◌≡◌, refl, sym, ap, ◌∙◌, subst, ◌≢◌, ◌⊎◌, inl, inr, false, some, List, [], ◌∷◌, ◌++◌,
  append-nil, append_assoc, arith, length, take, length-take, Among, Text, codes, is_blank, ℤ, ok,
}
use animus_coder.Tools.Disk.{Node, find, parts_of}
use animus_coder.Tools.Walk.{rel, sort_node}
use animus_coder.Tools.Walk.Laws.{File, files_below}
use animus_coder.Tools.Filesystem.{Filesystem, resolved}
use animus_coder.Tools.Filesystem.Walks.Laws.{for_paths, limited, walk_files-for_paths}
use animus_coder.Tools.Filesystem.Search.{positive_or}
use animus_coder.Semantic.{Engine}
use animus_coder.Semantic.Tokens.{tokenize}
use animus_coder.Semantic.Rank.{Hit, rank}
use animus_coder.Semantic.Rank.Laws.{
  IsOrdered, IsLeftOut, IsRanked-IsOrdered, IsCut-IsLeftOut, rank-IsRanked, Among-rank,
  take-IsRanked, Among-take, take-IsCut,
}
use animus_coder.Semantic.Search.{hit_of, visit, best, search_tokens, search_in, semantic_search}

module _ (e : Engine) (fs : Filesystem) (query : List Text) (disk : Node) where
  -- The hits of the files, in the order of the walk.
  unfoldable pub candidates : List Text → List File → List Hit
  candidates base [] = []
  candidates base ((path, content) ∷ files) =
      hit_of e fs query disk (rel base path) ++ candidates base files

  for_paths-candidates :
      (base : List Text) (files : List File) (hits : List Hit)
      → for_paths base (visit e fs query disk) files hits ≡ hits ++ candidates base files
  unfolding for_paths candidates
  for_paths-candidates base [] hits = sym (append-nil hits)
  for_paths-candidates base ((path, content) ∷ files) hits =
      let found = hit_of e fs query disk (rel base path) in
      for_paths-candidates base files (hits ++ found)
      ∙ append_assoc hits found (candidates base files)

-- The hits of the first files below the tool's base directory.
abbrev pub all_candidates : Engine → Filesystem → List Text → Node → List Text → Node → List Hit
all_candidates e fs query disk ps node =
    candidates e fs query disk (parts_of fs.guard.base_dir)
      (limited e.max_files 0 (files_below ps (sort_node node)))

-- The best `limit` of the candidates: ranked, no more than `limit`, each a candidate, and every
-- candidate that is missing is preceded by all of them, with the limit reached.
pub record IsBest (limit : ℕ) (found hits : List Hit) : Type 0 where
  pub ranked : IsOrdered hits
  pub bounded : length hits ≤ limit
  pub sound : (h : Hit) → Among h hits → Among h found
  pub complete : (h : Hit) → Among h found → Among h hits ⊎ IsLeftOut h limit hits

pub take-rank-IsBest : (limit : ℕ) (found : List Hit) → IsBest limit found (take limit (rank found))
take-rank-IsBest limit found = record {
  ranked =
      IsRanked-IsOrdered (take limit (rank found))
        (take-IsRanked limit (rank found) (rank-IsRanked found));
  bounded = omega (arith, length-take limit (rank found));
  sound = λ h m. (Among-rank h found).0 (Among-take h limit (rank found) m);
  complete = λ h m.
      elim (take-IsCut h limit (rank found) (rank-IsRanked found) ((Among-rank h found).1 m)) [
        | inl kept ↦ inl kept
        | inr cut ↦ inr (IsCut-IsLeftOut h limit (take limit (rank found)) cut)
      ];
}

search_tokens-best :
    (e : Engine) (fs : Filesystem) (query : List Text) (limit : ℕ) (disk : Node) (ps : List Text)
    (node : Node)
    → query ≢ []
    → resolved fs (codes ".") ≡ ok ps
    → find ps disk ≡ some node
    → search_tokens e fs query limit disk
      ≡ ok (take limit (rank (all_candidates e fs query disk ps node)))
search_tokens-best e fs [] limit disk ps node q r f = absurd (q refl)
search_tokens-best e fs (q ∷ query) limit disk ps node _ r f = ap (best limit) (
    walk_files-for_paths fs (codes ".") e.max_files (visit e fs (q ∷ query) disk) disk [] ps node r
      f
    ∙ ap (λ (hits : List Hit). (ok tt, hits))
        (for_paths-candidates e fs (q ∷ query) disk (parts_of fs.guard.base_dir)
          (limited e.max_files 0 (files_below ps (sort_node node))) []))

-- A search with a query that holds a token, on an engine with a filesystem whose base directory is
-- admitted and exists, succeeds with the best `limit` hits (5 where none is given): each comes from
-- one of the first files of the walk, at most `limit` are returned, by falling score and then by
-- path, and a file's hit is missing only where `limit` others are returned that all precede it.
pub semantic_search-IsBest :
    (e : Engine) (fs : Filesystem) (query : Text) (limit : ℤ) (disk : Node) (ps : List Text)
    (node : Node)
    → e.fs ≡ some fs
    → is_blank query ≡ false
    → tokenize query ≢ []
    → resolved fs (codes ".") ≡ ok ps
    → find ps disk ≡ some node
    → (hits : List Hit) × (semantic_search (some e) query limit disk ≡ ok hits)
      × IsBest (positive_or limit 5) (all_candidates e fs (tokenize query) disk ps node) hits
unfolding semantic_search
semantic_search-IsBest e fs query limit disk ps node held asked words r f =
    let n = positive_or limit 5 in
    let found = all_candidates e fs (tokenize query) disk ps node in
    (
      take n (rank found),
      subst (λ o. search_in e query n disk o ≡ ok (take n (rank found))) (sym held)
          (rw asked (search_tokens-best e fs (tokenize query) n disk ps node words r f)),
      take-rank-IsBest n found,
    )
