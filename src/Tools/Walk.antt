-- ===== src/Tools/Walk.antt =====
-- filepath.WalkDir over the disk, and what the file tools use of os.ReadDir and filepath.Rel.
pub mod Laws
use animus_coder.Base.{
  false, List, [], ◌∷◌, ◌++◌, if◌then◌else◌, Text, text_eq, insert, Result, ok, err,
}
use mathlib.Core.List.{map}
use animus_coder.Base.Order.{text_lt}
use animus_coder.Tools.Path.{dot_dot, render}
use animus_coder.Tools.Disk.{Node, Entries, file, folder, done, entry}

-- An entry put in front of the first one whose name is not smaller.
unfoldable pub insert_entry : Text → Node → Entries → Entries
unfolding text_lt
insert_entry name node done = entry name node done
insert_entry name node (entry n x es) =
    if text_lt n name then entry n x (insert_entry name node es) else entry name node (entry n x es)

-- os.ReadDir returns the entries by name: the same tree with every folder so ordered.
unfoldable mutual
  pub sort_node : Node → Node
  sort_node (file content) = file content
  sort_node (folder es) = folder (sort_entries es)

  pub sort_entries : Entries → Entries
  sort_entries done = done
  sort_entries (entry name node es) = insert_entry name (sort_node node) (sort_entries es)

-- What a callback of filepath.WalkDir returns: nil, fs.SkipDir or another error.
pub data Flow (E : Type 0) : Type 0 where
  go_on : Flow E
  skip_dir : Flow E
  failed : E → Flow E

-- The rest of a folder after one callback: fs.SkipDir drops it and is forgotten.
unfoldable pub after : {E S : Type 0} → Flow E × S → (S → Flow E × S) → Flow E × S
after (go_on, s) rest = rest s
after (skip_dir, s) rest = (go_on, s)
after (failed e, s) rest = (failed e, s)

-- filepath.WalkDir below a node that stands at `path`, on a tree that is ordered. The callback's
-- state is passed along. At a file fs.SkipDir is passed up, and drops the rest of its folder.
unfoldable mutual
  unfolding after

  pub walk_node :
      {E S : Type 0} → (List Text → Node → S → Flow E × S) → List Text → Node → S → Flow E × S
  walk_node fn path (file content) s = fn path (file content) s
  walk_node fn path (folder es) s = after (fn path (folder es) s) (walk_entries fn path es)

  pub walk_entries :
      {E S : Type 0} → (List Text → Node → S → Flow E × S) → List Text → Entries → S → Flow E × S
  walk_entries fn path done s = (go_on, s)
  walk_entries fn path (entry name node es) s =
      after (walk_node fn (path ++ name ∷ []) node s) (walk_entries fn path es)

-- What WalkDir returns for a flow: fs.SkipDir is no error.
unfoldable pub ended : {E S : Type 0} → Flow E × S → Result E (Unit {0}) × S
ended (go_on, s) = (ok tt, s)
ended (skip_dir, s) = (ok tt, s)
ended (failed e, s) = (err e, s)

-- The parts of a path relative to those of a base.
unfoldable pub rel_parts : List Text → List Text → List Text
rel_parts [] ts = ts
rel_parts (b ∷ bs) [] = map (λ _. dot_dot) (b ∷ bs)
rel_parts (b ∷ bs) (t ∷ ts) =
    if text_eq b t then rel_parts bs ts else map (λ _. dot_dot) (b ∷ bs) ++ t ∷ ts

-- filepath.Rel of two rooted paths.
unfoldable pub rel : List Text → List Text → Text
unfolding rel_parts
rel base path = render false (rel_parts base path)
