-- ===== src/Tools/Filesystem/Search/Laws.antt =====
-- internal/tools/filesystem.go: a search is the list of all hits, cut at the limit.
use animus_coder.Base.{
  ℕ, zero, suc, ◌+◌, ◌≤◌, ◌<◌, ◌≡◌, refl, sym, ap, ◌∙◌, subst, ◌≢◌, inl, inr, some, List, [], ◌∷◌,
  ◌++◌, append-nil, append_assoc, arith, leb, if◌then◌else◌, Bool-cases, length, take,
  length-append, length-take, Text, text_eq, text_eq_iff, contains, ℤ, ok,
}
use animus_coder.Tools.Disk.{Node, Entries, file, folder, find, parts_of}
use animus_coder.Tools.Walk.{rel, sort_node, walk_node}
use animus_coder.Tools.Walk.Laws.{
  File, Follows, ended-Follows, files_below, for_files, for_files-full, walk-Follows,
}
use animus_coder.Tools.Filesystem.{Filesystem, resolved}
use animus_coder.Tools.Filesystem.Walks.{walk_dir}
use animus_coder.Tools.Filesystem.Search.{
  SearchResult, hit_at, scan_lines, search_lines, search_node, positive_or, search_files,
  search_parts, searched,
}

-- The lines that hold the pattern, with their numbers.
unfoldable pub hits_from : Text → Text → ℕ → List Text → List SearchResult
hits_from pattern rel_path n [] = []
hits_from pattern rel_path n (line ∷ rest) =
    let hits = hits_from pattern rel_path (n + 1) rest in
    if contains line pattern
    then record { path = rel_path; line = n; snippet = line } ∷ hits
    else hits

unfoldable pub all_hits : Text → List Text → List File → List SearchResult
unfolding hits_from
all_hits pattern base [] = []
all_hits pattern base ((path, content) ∷ fs) =
    hits_from pattern (rel base path) 1 (scan_lines content) ++ all_hits pattern base fs

take_all : {A : Type 0} (n : ℕ) (xs : List A) → length xs ≤ n → take n xs ≡ xs
take_all zero [] h = refl
take_all zero (x ∷ xs) h = absurd (omega arith)
take_all (suc n) [] h = refl
take_all (suc n) (x ∷ xs) h = ap (◌∷◌ x) (take_all n xs (omega arith))

take_exact : {A : Type 0} (n : ℕ) (xs ys : List A) → length xs ≡ n → take n (xs ++ ys) ≡ xs
take_exact zero [] ys h = refl
take_exact zero (x ∷ xs) ys h = absurd (omega arith)
take_exact (suc n) [] ys h = absurd (omega arith)
take_exact (suc n) (x ∷ xs) ys h = ap (◌∷◌ x) (take_exact n xs ys (omega arith))

take-take-append :
    {A : Type 0} (n : ℕ) (xs ys : List A) → take n (take n xs ++ ys) ≡ take n (xs ++ ys)
take-take-append zero xs ys = refl
take-take-append (suc n) [] ys = refl
take-take-append (suc n) (x ∷ xs) ys = ap (◌∷◌ x) (take-take-append n xs ys)

-- The state of a search that takes no further hit.
abbrev IsFull : ℕ → List SearchResult → Type 0
IsFull max results = max ≤ length results

-- One file: its hits are added, up to the limit.
search_lines-Follows :
    (max : ℕ) (pattern rel_path : Text) (n : ℕ) (lines : List Text) (results : List SearchResult)
    → length results < max
    → Follows
        (IsFull max)
        (search_lines max pattern rel_path n lines results)
        (take max (results ++ hits_from pattern rel_path n lines))
unfolding search_lines hits_from
search_lines-Follows max pattern rel_path n [] results h =
    sym (ap (take max) (append-nil results) ∙ take_all max results (omega arith))
search_lines-Follows max pattern rel_path n (line ∷ rest) results h =
    let hit = hit_at rel_path n line in
    let found = results ++ hit ∷ [] in
    let hits = hits_from pattern rel_path (n + 1) rest in
    let longer : length found ≡ length results + 1 = length-append results (hit ∷ []) in
    let regroup : take max (found ++ hits) ≡ take max (results ++ hit ∷ hits) =
      ap (take max) (append_assoc results (hit ∷ []) hits) in
    elim (Bool-cases (contains line pattern)) [
      | inr e ↦ rw e (search_lines-Follows max pattern rel_path (n + 1) rest results h)
      | inl e ↦ elim (Bool-cases (leb max (length found))) [
        | inl full ↦
            rw (e, full) (sym (take_exact max found hits (ground arith)) ∙ regroup, ground arith)
        | inr room ↦
            rw (e, room)
              (subst (Follows (IsFull max) (search_lines max pattern rel_path (n + 1) rest found))
                regroup
                (search_lines-Follows max pattern rel_path (n + 1) rest found (ground arith)))
      ]
    ]

module _ (max : ℕ) (pattern : Text) (base : List Text) where
  -- The reference callback: nothing once the results are full.
  abbrev act : List Text → Text → List SearchResult → List SearchResult
  act path content results =
      if leb max (length results)
      then results
      else take max (results ++ hits_from pattern (rel base path) 1 (scan_lines content))

  act-IsFull :
      (path : List Text) (content : Text) (results : List SearchResult)
      → IsFull max results
      → act path content results ≡ results
  act-IsFull path content results h = ground arith

  act_at_file :
      (path : List Text) (content : Text) (results : List SearchResult)
      → Follows
          (IsFull max)
          (search_node max pattern base path (file content) results)
          (act path content results)
  unfolding search_node
  act_at_file path content results = elim (Bool-cases (leb max (length results))) [
    | inl e ↦ rw e (refl, ground arith)
    | inr e ↦ rw e (
        search_lines-Follows max pattern (rel base path) 1 (scan_lines content) results
          (ground arith))
  ]

  act_at_folder :
      (path : List Text) (es : Entries) (results : List SearchResult)
      → Follows (IsFull max) (search_node max pattern base path (folder es) results) results
  unfolding search_node
  act_at_folder path es results = elim (Bool-cases (leb max (length results))) [
    | inl e ↦ rw e (refl, ground arith)
    | inr e ↦ rw e refl
  ]

  for_files-act :
      (fs : List File) (results : List SearchResult)
      → length results ≤ max
      → for_files act fs results ≡ take max (results ++ all_hits pattern base fs)
  unfolding for_files all_hits
  for_files-act [] results h = sym (ap (take max) (append-nil results) ∙ take_all max results h)
  for_files-act ((path, content) ∷ fs) results h =
      let hits = hits_from pattern (rel base path) 1 (scan_lines content) in
      let rest = all_hits pattern base fs in
      elim (Bool-cases (leb max (length results))) [
        | inl e ↦ rw e (
            for_files-full act (IsFull max) act-IsFull fs results (ground arith)
            ∙ sym (take_exact max results (hits ++ rest) (ground arith)))
        | inr e ↦ rw e (
            for_files-act fs (take max (results ++ hits))
              (omega (arith, length-take max (results ++ hits)))
            ∙ take-take-append max (results ++ hits) rest
            ∙ ap (take max) (append_assoc results hits rest))
      ]

  walk_dir-search :
      (ps : List Text) (disk node : Node)
      → find ps disk ≡ some node
      → walk_dir (search_node max pattern base) ps disk []
        ≡ (ok tt, take max (all_hits pattern base (files_below ps (sort_node node))))
  unfolding walk_dir
  walk_dir-search ps disk node e =
      let files = files_below ps (sort_node node) in
      rw e (
        ended-Follows (IsFull max) (walk_node (search_node max pattern base) ps (sort_node node) [])
          (take max (all_hits pattern base files))
          (subst
            (Follows (IsFull max) (walk_node (search_node max pattern base) ps (sort_node node) []))
            (for_files-act files [] (omega arith))
            (walk-Follows act (IsFull max) act-IsFull (search_node max pattern base) act_at_file
              act_at_folder ps (sort_node node) [])))

-- Search of a pattern that is not empty, at a root that the guard admits and that exists, returns
-- the hits of all files below the root, in the order of the walk and by line, cut at the limit (20
-- where the caller gives none).
pub search_files-all_hits :
    (f : Filesystem) (root pattern : Text) (max_results : ℤ) (disk : Node) (ps : List Text)
    (node : Node)
    → pattern ≢ []
    → resolved f root ≡ ok ps
    → find ps disk ≡ some node
    → search_files f root pattern max_results disk
      ≡ ok (
          take
            (positive_or max_results 20)
            (all_hits pattern (parts_of f.guard.base_dir) (files_below ps (sort_node node))))
unfolding search_files
search_files-all_hits f root pattern max_results disk ps node named admitted found =
    let limit = positive_or max_results 20 in
    elim (Bool-cases (text_eq pattern [])) [
      | inl e ↦ absurd (named ((text_eq_iff pattern []).0 e))
      | inr e ↦ rw e (
          subst
            (λ r.
              search_parts f pattern limit disk r
              ≡ ok (
                  take limit (
                    all_hits pattern (parts_of f.guard.base_dir)
                      (files_below ps (sort_node node)))))
            (sym admitted)
            (ap searched
              (walk_dir-search limit pattern (parts_of f.guard.base_dir) ps disk node found)))
    ]
