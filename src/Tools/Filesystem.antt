-- ===== src/Tools/Filesystem.antt =====
-- internal/tools/filesystem.go: the file operations below a base directory.
pub mod Confined
pub mod Walks
pub mod Search
pub mod Structure
mod Tests
use animus_coder.Base.{
  Bool, true, not, Option, none, some, List, if◌then◌else◌, Text, Result, ok, err,
}
use animus_coder.Tools.Path.{PathError, PathGuard, resolve}
use animus_coder.Tools.Disk.{Node, file, parts_of, find, read, write, mkdir_all, parent}

pub record Filesystem : Type 0 where
  pub guard : PathGuard
  pub allow_write : Bool
  pub allow_read : Bool

pub data FsError : Type 0 where
  read_disabled : FsError
  write_disabled : FsError
  refused : PathError → FsError
  not_readable : FsError
  not_creatable : FsError
  not_writable : FsError
  not_found : FsError
  not_directory : FsError
  pattern_required : FsError

-- `NewFilesystem` over a base directory that is already absolute.
unfoldable pub new_filesystem : Text → Bool → Filesystem
new_filesystem base_dir allow_write = record {
  guard = record { base_dir = base_dir };
  allow_write = allow_write;
  allow_read = true;
}

unfoldable pub resolved : Filesystem → Text → Result FsError (List Text)
resolved f path = elim (resolve f.guard path) [
  | err e ↦ err (refused e)
  | ok abs ↦ ok (parts_of abs)
]

read_parts : Node → Result FsError (List Text) → Result FsError Text
read_parts disk (err e) = err e
read_parts disk (ok ps) = elim (read ps disk) [
  | none ↦ err not_readable
  | some content ↦ ok content
]

unfoldable pub read_file : Filesystem → Text → Node → Result FsError Text
unfolding read_parts
read_file f path disk =
    if not f.allow_read then err read_disabled else read_parts disk (resolved f path)

-- os.WriteFile on the disk that os.MkdirAll left.
write_made : List Text → Text → Node → Option Node → Result FsError (Unit {0}) × Node
write_made ps content disk none = (err not_creatable, disk)
write_made ps content disk (some made) = elim (write ps content made) [
  | none ↦ (err not_writable, made)
  | some new ↦ (ok tt, new)
]

write_parts : Text → Node → Result FsError (List Text) → Result FsError (Unit {0}) × Node
write_parts content disk (err e) = (err e, disk)
write_parts content disk (ok ps) = write_made ps content disk (mkdir_all (parent ps) disk)

unfoldable pub write_file : Filesystem → Text → Text → Node → Result FsError (Unit {0}) × Node
unfolding write_parts write_made
write_file f path content disk =
    if not f.allow_write
    then (err write_disabled, disk)
    else write_parts content disk (resolved f path)

stat_parts : Node → Result FsError (List Text) → Result FsError Node
stat_parts disk (err e) = err e
stat_parts disk (ok ps) = elim (find ps disk) [ none ↦ err not_found | some node ↦ ok node ]

-- What `Stat` finds: a file or a folder.
unfoldable pub stat : Filesystem → Text → Node → Result FsError Node
unfolding stat_parts
stat f path disk = if not f.allow_read then err read_disabled else stat_parts disk (resolved f path)
