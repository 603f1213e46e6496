-- ===== src/Tools/Disk.antt =====
-- The disk that package os works on: a tree of files and folders, without links or permissions. The
-- calls are those that the filesystem and git tools make, on the parts of an absolute path.
pub mod Laws
use animus_coder.Base.{true, Option, none, some, List, [], ◌∷◌, if◌then◌else◌, Text, text_eq}
use mathlib.Core.Option
use animus_coder.Tools.Path.{split_from, clean_parts}

mutual
  pub data Node : Type 0 where
    file : Text → Node
    folder : Entries → Node

  pub data Entries : Type 0 where
    done : Entries
    entry : Text → Node → Entries → Entries

-- The parts of an absolute path.
unfoldable pub parts_of : Text → List Text
parts_of path = clean_parts true [] (split_from [] path)

unfoldable pub find_entry : Text → Entries → Option Node
find_entry name done = none
find_entry name (entry n node es) = if text_eq n name then some node else find_entry name es

unfoldable pub set_entry : Text → Node → Entries → Entries
set_entry name node done = entry name node done
set_entry name node (entry n old es) =
    if text_eq n name then entry n node es else entry n old (set_entry name node es)

unfoldable pub find : List Text → Node → Option Node
find [] node = some node
find (p ∷ ps) (file content) = none
find (p ∷ ps) (folder es) = elim (find_entry p es) [ none ↦ none | some node ↦ find ps node ]

abbrev pub content_of : Option Node → Option Text
content_of none = none
content_of (some (file content)) = some content
content_of (some (folder es)) = none

-- os.ReadFile: `none` is its error, for what is missing or a folder.
unfoldable pub read : List Text → Node → Option Text
read ps disk = content_of (find ps disk)

-- os.WriteFile at what stands there: it wants the folder above, and replaces no folder.
unfoldable pub write_at : List Text → Text → Option Node → Option Node
write_at [] content none = some (file content)
write_at [] content (some (file old)) = some (file content)
write_at [] content (some (folder es)) = none
write_at (p ∷ ps) content none = none
write_at (p ∷ ps) content (some (file old)) = none
write_at (p ∷ ps) content (some (folder es)) =
    Option.map (λ node. folder (set_entry p node es)) (write_at ps content (find_entry p es))

unfoldable pub write : List Text → Text → Node → Option Node
write ps content disk = write_at ps content (some disk)

-- os.MkdirAll: it fails at a file on the way.
unfoldable pub mkdir_at : List Text → Option Node → Option Node
mkdir_at [] none = some (folder done)
mkdir_at [] (some (file content)) = none
mkdir_at [] (some (folder es)) = some (folder es)
mkdir_at (p ∷ ps) none = Option.map (λ node. folder (set_entry p node done)) (mkdir_at ps none)
mkdir_at (p ∷ ps) (some (file content)) = none
mkdir_at (p ∷ ps) (some (folder es)) =
    Option.map (λ node. folder (set_entry p node es)) (mkdir_at ps (find_entry p es))

unfoldable pub mkdir_all : List Text → Node → Option Node
mkdir_all ps disk = mkdir_at ps (some disk)

-- filepath.Dir on the parts of a path.
unfoldable pub parent : List Text → List Text
parent [] = []
parent (p ∷ []) = []
parent (p ∷ q ∷ ps) = p ∷ parent (q ∷ ps)
