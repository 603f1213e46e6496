-- ===== src/Runner/Context/Files.antt =====
-- internal/rpc/agent/runner.go: `buildContextFiles`, the files and outlines that a run starts with.
pub mod Bounds
mod Tests
use animus_coder.Base.{
  ℕ, ◌*◌, Bool, true, false, ◌&&◌, not, Option, none, some, List, [], ◌∷◌, ◌++◌, ltb, leb, ◌==◌,
  if◌then◌else◌, Text, codes, elem, pos, Result, ok, err,
}
use animus_coder.Semantic.Search.{SearchError, semantic_search}
use animus_coder.Semantic.Rank.{Hit}
use animus_coder.Tools.Disk.{Node, file, folder}
use animus_coder.Tools.Filesystem.{Filesystem, FsError, stat, read_file}
use animus_coder.Tools.Filesystem.Structure.{describe_structure}
use animus_coder.Tools.Schema.{ToolRegistry}
use animus_coder.Agent.Types.{ContextFile}
use animus_coder.Runner.Context.{Gathered, append_with_budget}
use animus_coder.Runner.Context.Mentions.{discover_context_paths}
use mathlib.Core.List.{map}

-- The path that could not be read, or not be described, with the filesystem's error.
pub data ContextError : Type 0 where
  read_context : Text → FsError → ContextError
  describe_context : Text → FsError → ContextError

abbrev pub hit_paths : Result SearchError (List Hit) → List Text
hit_paths (ok hits) = map (λ (h : Hit). h.path) hits
hit_paths (err e) = []

-- The given paths, or else those that a search and the prompt suggest.
abbrev pub candidate_paths : ToolRegistry → Filesystem → Text → Node → List Text → List Text
candidate_paths reg fs prompt disk [] =
    hit_paths (semantic_search reg.semantic prompt (pos 5) disk)
    ++ discover_context_paths fs prompt disk
candidate_paths reg fs prompt disk (p ∷ ps) = p ∷ ps

-- strings.TrimSuffix(p, "/")
unfoldable pub trim_slash : Text → Text
trim_slash [] = []
trim_slash (c ∷ []) = if c == b'/' then [] else c ∷ []
trim_slash (c ∷ d ∷ s) = c ∷ trim_slash (d ∷ s)

abbrev pub as_file :
    (FsError → ContextError) → Text → Result FsError Text → Result ContextError ContextFile
as_file fail path (err e) = err (fail e)
as_file fail path (ok content) = ok (record { path = path; content = content })

-- What the path adds: an outline where it is a folder, and the content where it is a file.
abbrev pub context_of :
    Filesystem → Text → Node → Result FsError Node → Result ContextError ContextFile
context_of fs p disk (err e) = err (read_context p e)
context_of fs p disk (ok (folder es)) =
    as_file (describe_context p) (trim_slash p ++ codes " (structure)")
      (describe_structure fs p (pos 3) (pos 200) disk)
context_of fs p disk (ok (file content)) = as_file (read_context p) p (read_file fs p disk)

unfoldable pub context_file : Filesystem → Text → Node → Result ContextError ContextFile
unfolding trim_slash
context_file fs p disk = context_of fs p disk (stat fs p disk)

-- The loop's body behind a file that was read, with the rest of the loop.
abbrev pub added :
    Bool × Gathered → (Gathered → Result ContextError Gathered) → Result ContextError Gathered
added (true, g) rest = ok g
added (false, g) rest = rest g

abbrev pub gathered_file :
    ℕ
    → ℕ
    → Gathered
    → (Gathered → Result ContextError Gathered)
    → Result ContextError ContextFile
    → Result ContextError Gathered
gathered_file max_bytes cap g rest (err e) = err e
gathered_file max_bytes cap g rest (ok cf) = added (append_with_budget g cf max_bytes cap) rest

module _ (fs : Filesystem) (disk : Node) (max_bytes cap : ℕ) where
  unfoldable pub gather : List Text → List Text → Gathered → Result ContextError Gathered
  gather seen [] g = ok g
  gather seen (p ∷ rest) g =
      let past = gather seen rest g in
      let here = gathered_file max_bytes cap g (gather (p ∷ seen) rest) (context_file fs p disk) in
      if elem p seen then past else if ltb 0 max_bytes && leb max_bytes g.total then ok g else here

abbrev pub per_file_cap : ℕ → ℕ
per_file_cap max_bytes =
    if ltb 0 max_bytes && ltb max_bytes (32 * 1024) then max_bytes else 32 * 1024

abbrev pub files_of : Result ContextError Gathered → Result ContextError (List ContextFile)
files_of (err e) = err e
files_of (ok g) = ok g.files

abbrev pub nothing_gathered : Gathered
nothing_gathered = record { files = []; total = 0 }

abbrev pub build_with :
    ToolRegistry
    → Option Filesystem
    → Text
    → List Text
    → ℕ
    → Node
    → Result ContextError (List ContextFile)
build_with reg none prompt paths max_bytes disk = ok []
build_with reg (some fs) prompt paths max_bytes disk = files_of (
    gather fs disk max_bytes (per_file_cap max_bytes) [] (candidate_paths reg fs prompt disk paths)
      nothing_gathered)

unfoldable pub build_context_files :
    Option ToolRegistry → Text → List Text → ℕ → Node → Result ContextError (List ContextFile)
build_context_files none prompt paths max_bytes disk = ok []
build_context_files (some reg) prompt paths max_bytes disk =
    build_with reg reg.fs prompt paths max_bytes disk
