-- ===== src/Tools/Filesystem/Walks.antt =====
-- internal/tools/filesystem.go: ListDir and WalkFiles.
pub mod Laws
mod Tests
use animus_coder.Base.{
  ℕ, ◌+◌, Bool, true, false, ◌&&◌, not, Option, none, some, List, [], ◌∷◌, leb, if◌then◌else◌, Text,
  ℤ, pos, pos_part, is_positive, Result, ok, err,
}
use animus_coder.Tools.Disk.{Node, Entries, file, folder, done, entry, find, parts_of}
use animus_coder.Tools.Walk.{Flow, go_on, skip_dir, sort_node, sort_entries, walk_node, ended, rel}
use animus_coder.Tools.Filesystem.{Filesystem, FsError, not_found, not_directory, resolved}

-- fs.DirEntry, as far as the callers read it.
pub record DirEntry : Type 0 where
  pub name : Text
  pub is_dir : Bool

abbrev pub is_folder : Node → Bool
is_folder (file content) = false
is_folder (folder es) = true

unfoldable pub entries_of : Entries → List DirEntry
entries_of done = []
entries_of (entry name node es) = record { name = name; is_dir = is_folder node } ∷ entries_of es

abbrev listing : Option Node → Result FsError (List DirEntry)
listing none = err not_found
listing (some (file content)) = err not_directory
listing (some (folder es)) = ok (entries_of (sort_entries es))

abbrev list_parts : Node → Result FsError (List Text) → Result FsError (List DirEntry)
list_parts disk (err e) = err e
list_parts disk (ok ps) = listing (find ps disk)

unfoldable pub list_dir : Filesystem → Text → Node → Result FsError (List DirEntry)
list_dir f path disk = list_parts disk (resolved f path)

-- filepath.WalkDir at a root that may be missing: the callback then returns the error it is given.
abbrev pub walk_from :
    {S : Type 0}
    → (List Text → Node → S → Flow FsError × S)
    → List Text
    → Option Node
    → S
    → Result FsError (Unit {0}) × S
walk_from fn ps none s = (err not_found, s)
walk_from fn ps (some node) s = ended (walk_node fn ps (sort_node node) s)

unfoldable pub walk_dir :
    {S : Type 0}
    → (List Text → Node → S → Flow FsError × S)
    → List Text
    → Node
    → S
    → Result FsError (Unit {0}) × S
walk_dir fn ps disk s = walk_from fn ps (find ps disk) s

-- The state of a walk over the files: the count, and the state of the client's callback.
abbrev pub Counted : Type 0 → Type 0
Counted S = ℕ × S

abbrev pub count_one : {S : Type 0} → ℕ → Flow FsError × S → Flow FsError × Counted S
count_one n (flow, s) = (flow, (n + 1, s))

-- The callback of `WalkFiles`. Every file is a regular file, and `fn` gets its relative path.
unfoldable pub visit_file :
    {S : Type 0}
    → ℤ
    → List Text
    → (Text → S → Flow FsError × S)
    → List Text
    → Node
    → Counted S
    → Flow FsError × Counted S
visit_file max_files base fn path (folder es) (n, s) = (go_on, (n, s))
visit_file max_files base fn path (file content) (n, s) =
    if is_positive max_files && leb (pos_part max_files) n
    then (skip_dir, (n, s))
    else count_one n (fn (rel base path) s)

abbrev pub walked :
    {S : Type 0} → Result FsError (Unit {0}) × Counted S → Result FsError (Unit {0}) × S
walked (r, (n, s)) = (r, s)

abbrev pub walk_parts :
    {S : Type 0}
    → Filesystem
    → ℤ
    → (Text → S → Flow FsError × S)
    → Node
    → S
    → Result FsError (List Text)
    → Result FsError (Unit {0}) × S
walk_parts f max_files fn disk s (err e) = (err e, s)
walk_parts f max_files fn disk s (ok ps) =
    walked (walk_dir (visit_file max_files (parts_of f.guard.base_dir) fn) ps disk (0, s))

unfoldable pub walk_files :
    {S : Type 0}
    → Filesystem
    → Text
    → ℤ
    → (Text → S → Flow FsError × S)
    → Node
    → S
    → Result FsError (Unit {0}) × S
walk_files f root max_files fn disk s = walk_parts f max_files fn disk s (resolved f root)
