-- ===== src/Tools/Filesystem/Structure.antt =====
-- internal/tools/filesystem.go: DescribeStructure, the outline of a folder.
pub mod Laws
mod Tests
use animus_coder.Base.{
  ℕ, zero, suc, ◌+◌, ◌-◌, Bool, not, Option, none, some, List, [], ◌∷◌, ◌++◌, ltb, leb,
  if◌then◌else◌, Text, codes, to_lower, elem, ℤ, pos, show_nat, join, Result, ok, err,
}
use animus_coder.Tools.Path.{clean, slash}
use animus_coder.Tools.Disk.{Node, Entries, file, folder, done, entry, find}
use animus_coder.Tools.Walk.{sort_entries}
use animus_coder.Tools.Filesystem.{
  Filesystem, FsError, read_disabled, not_found, not_directory, resolved,
}
use animus_coder.Tools.Filesystem.Walks.{is_folder}
use animus_coder.Tools.Filesystem.Search.{positive_or}

abbrev pub skipped_names : List Text
skipped_names =
    codes ".git"
    ∷ codes "node_modules"
    ∷ codes ".idea"
    ∷ codes ".vscode"
    ∷ codes "vendor"
    ∷ codes ".cache"
    ∷ codes ".github"
    ∷ []

unfoldable pub skip_structure_dir : Text → Bool
skip_structure_dir name = elem (to_lower name) skipped_names

-- strings.Repeat("  ", n)
unfoldable pub indent : ℕ → Text
indent zero = []
indent (suc n) = 32 ∷ 32 ∷ indent n

unfoldable pub outline_line : ℕ → Text → Node → Text
unfolding indent
outline_line depth name node =
    (indent (depth - 1) ++ (codes "- " ++ name)) ++ (if is_folder node then slash ∷ [] else [])

unfoldable pub truncation_line : ℕ → ℕ → Text
unfolding indent show_nat
truncation_line depth max_entries =
    indent (depth - 1)
    ++ (codes "... truncated after " ++ (show_nat max_entries ++ codes " entries"))

-- The variables that the recursion shares.
pub record Outline : Type 0 where
  pub lines : List Text
  pub added : ℕ

unfoldable pub add_line : Text → Outline → Outline
add_line line o = record { lines = o.lines ++ line ∷ []; added = o.added + 1 }

-- A line that is not counted.
unfoldable pub truncate : Text → Outline → Outline
truncate line o = record o { lines = o.lines ++ line ∷ [] }

-- `walk` at a folder, and its loop over the entries. It returns nil or fs.SkipDir, and every caller
-- goes on at either.
unfoldable mutual
  unfolding add_line truncate

  pub describe_folder : ℕ → ℕ → ℕ → Node → Outline → Outline
  describe_folder max_depth max_entries depth (file content) o = o
  describe_folder max_depth max_entries depth (folder es) o =
      let inside = describe_entries max_depth max_entries depth es o in
      if ltb max_depth depth then o else inside

  pub describe_entries : ℕ → ℕ → ℕ → Entries → Outline → Outline
  describe_entries max_depth max_entries depth done o = o
  describe_entries max_depth max_entries depth (entry name node es) o =
      let o' = add_line (outline_line depth name node) o in
      let full = truncate (truncation_line depth max_entries) o' in
      let inside = describe_folder max_depth max_entries (depth + 1) node o' in
      let more = describe_entries max_depth max_entries depth es inside in
      let past = describe_entries max_depth max_entries depth es o in
      if skip_structure_dir name then past else if leb max_entries o'.added then full else more

abbrev described : Text → ℕ → ℕ → Option Node → Result FsError Text
described root max_depth max_entries none = err not_found
described root max_depth max_entries (some (file content)) = err not_directory
described root max_depth max_entries (some (folder es)) = ok (
    join
      (describe_folder max_depth max_entries 1 (folder (sort_entries es))
        (record { lines = (clean root ++ slash ∷ []) ∷ []; added = 0 })).lines
      (10 ∷ []))

abbrev describe_parts : Text → ℕ → ℕ → Node → Result FsError (List Text) → Result FsError Text
describe_parts root max_depth max_entries disk (err e) = err e
describe_parts root max_depth max_entries disk (ok ps) =
    described root max_depth max_entries (find ps disk)

unfoldable pub describe_structure : Filesystem → Text → ℤ → ℤ → Node → Result FsError Text
describe_structure f root max_depth max_entries disk =
    if not f.allow_read
    then err read_disabled
    else describe_parts root (positive_or max_depth 3) (positive_or max_entries 200) disk
        (resolved f root)
