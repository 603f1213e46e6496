-- ===== src/Tools/Walk/Laws.antt =====
-- A walk whose callback acts on files alone, and changes nothing once it has returned fs.SkipDir, is
-- a loop over the files of the tree.
use animus_coder.Base.{◌≡◌, refl, sym, ap, ◌∙◌, subst, List, [], ◌∷◌, ◌++◌, Text, ok}
use animus_coder.Tools.Disk.{Node, Entries, file, folder, done, entry}
use animus_coder.Tools.Walk.{ended, Flow, go_on, skip_dir, failed, after, walk_node, walk_entries}

-- A file with its path.
abbrev pub File : Type 0
File = List Text × Text

-- The files below a node, each folder's entries in their order.
unfoldable mutual
  pub files_below : List Text → Node → List File
  files_below path (file content) = (path, content) ∷ []
  files_below path (folder es) = files_among path es

  pub files_among : List Text → Entries → List File
  files_among path done = []
  files_among path (entry name node es) =
      files_below (path ++ name ∷ []) node ++ files_among path es

-- A flow whose state is `t`, and that skips only when that state is full.
abbrev pub Follows : {E S : Type 0} → (S → Type 0) → Flow E × S → S → Type 0
Follows Full (go_on, s) t = s ≡ t
Follows Full (skip_dir, s) t = (s ≡ t) × Full s
Follows Full (failed e, s) t = ⊥

-- What a walk that follows a loop returns.
pub ended-Follows :
    {E S : Type 0} (Full : S → Type 0) (r : Flow E × S) (t : S)
    → Follows Full r t
    → ended r ≡ (ok tt, t)
unfolding ended
ended-Follows Full (go_on, s) t h = rw h
ended-Follows Full (skip_dir, s) t h = rw h.0
ended-Follows Full (failed e, s) t h = absurd h

module _ {S : Type 0} (act : List Text → Text → S → S) where
  unfoldable pub for_files : List File → S → S
  for_files [] s = s
  for_files ((path, content) ∷ fs) s = for_files fs (act path content s)

  pub for_files-append :
      (xs ys : List File) (s : S) → for_files (xs ++ ys) s ≡ for_files ys (for_files xs s)
  unfolding for_files
  for_files-append [] ys s = refl
  for_files-append ((path, content) ∷ xs) ys s = for_files-append xs ys (act path content s)

  module _ (Full : S → Type 0)
      (idle : (path : List Text) (content : Text) (s : S) → Full s → act path content s ≡ s) where
    pub for_files-full : (xs : List File) (s : S) → Full s → for_files xs s ≡ s
    unfolding for_files
    for_files-full [] s h = refl
    for_files-full ((path, content) ∷ xs) s h =
        subst (λ t. for_files xs t ≡ s) (sym (idle path content s h)) (for_files-full xs s h)

    module _ {E : Type 0} (fn : List Text → Node → S → Flow E × S)
        (at_file : (path : List Text) (content : Text) (s : S)
          → Follows Full (fn path (file content) s) (act path content s))
        (at_folder : (path : List Text) (es : Entries) (s : S)
          → Follows Full (fn path (folder es) s) s) where
      after-Follows :
          (r : Flow E × S) (rest : S → Flow E × S) (xs : List File) (t : S)
          → ((u : S) → Follows Full (rest u) (for_files xs u))
          → Follows Full r t
          → Follows Full (after r rest) (for_files xs t)
      unfolding after
      after-Follows (go_on, s) rest xs t h e =
          subst (λ u. Follows Full (rest s) (for_files xs u)) e (h s)
      after-Follows (skip_dir, s) rest xs t h (e, full) =
          sym (for_files-full xs s full) ∙ ap (for_files xs) e
      after-Follows (failed x, s) rest xs t h e = absurd e

      mutual
        unfolding walk_node files_below for_files

        walk_node-Follows :
            (path : List Text) (node : Node) (s : S)
            → Follows Full (walk_node fn path node s) (for_files (files_below path node) s)
        walk_node-Follows path (file content) s = at_file path content s
        walk_node-Follows path (folder es) s =
            after-Follows (fn path (folder es) s) (walk_entries fn path es) (files_among path es) s
              (walk_entries-Follows path es) (at_folder path es s)

        walk_entries-Follows :
            (path : List Text) (es : Entries) (s : S)
            → Follows Full (walk_entries fn path es s) (for_files (files_among path es) s)
        walk_entries-Follows path done s = refl
        walk_entries-Follows path (entry name node es) s =
            let below = files_below (path ++ name ∷ []) node in
            let rest = files_among path es in
            subst (Follows Full (walk_entries fn path (entry name node es) s))
              (sym (for_files-append below rest s))
              (after-Follows (walk_node fn (path ++ name ∷ []) node s) (walk_entries fn path es)
                rest (for_files below s) (walk_entries-Follows path es)
                (walk_node-Follows (path ++ name ∷ []) node s))

      pub walk-Follows :
          (path : List Text) (node : Node) (s : S)
          → Follows Full (walk_node fn path node s) (for_files (files_below path node) s)
      walk-Follows path node s = walk_node-Follows path node s
