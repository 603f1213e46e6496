-- ===== src/Runner/Context/Files/Tests.antt =====
-- Checks of `buildContextFiles` on a concrete disk.
use animus_coder.Base.{
  ◌+◌, ◌≤◌, ◌<◌, ◌≡◌, refl, true, false, none, some, List, [], ◌∷◌, ◌++◌, length, All, codes,
  text_eq, to_lower, has_prefix, elem, join, ok,
}
use animus_coder.Tools.Disk.{Node, file, folder, entry, done}
use animus_coder.Tools.Filesystem.{Filesystem}
use animus_coder.Tools.Schema.{ToolRegistry}
use animus_coder.Agent.Types.{ContextFile}
use animus_coder.Runner.Context.Budget.{size_of}
use animus_coder.Runner.Context.Mentions.{extract_mentioned_paths}
use animus_coder.Runner.Context.Files.{per_file_cap, build_context_files}
use animus_coder.Runner.Context.Files.Bounds.{build_context_files-Fits}

abbrev tool : Filesystem
tool = record { guard = record { base_dir = codes "/w" }; allow_write = false; allow_read = true }

abbrev disk : Node
disk = folder (
    entry (codes "w")
      (folder (
        entry (codes "f") (file (codes "abcde"))
          (entry (codes "d") (folder (entry (codes "g") (file []) done)) done)))
      done)

abbrev tools : ToolRegistry
tools = record { fs = some tool; terminal = none; git = none; semantic = none }

abbrev short : List ContextFile
short = record { path = codes "f"; content = codes "abc" ++ codes "\n[truncated]" } ∷ []

mentioned : extract_mentioned_paths (codes "see ./a.go, and a.go in x") ≡ codes "a.go" ∷ []
unfolding extract_mentioned_paths text_eq elem
mentioned = refl

-- The outline of a folder, and a path that is given twice.
gathered :
    build_context_files (some tools) [] (codes "d/" ∷ codes "d/" ∷ []) 0 disk
    ≡ ok (record { path = codes "d (structure)"; content = codes "d/" ++ (10 ∷ codes "- g") } ∷ [])
unfolding build_context_files animus_coder.Runner.Context.Files.gather elem
    animus_coder.Runner.Context.Files.context_file animus_coder.Tools.Filesystem.stat
    animus_coder.Tools.Filesystem.resolved animus_coder.Tools.Path.resolve text_eq
    animus_coder.Tools.Path.is_abs animus_coder.Tools.Path.clean animus_coder.Tools.Path.render
    animus_coder.Tools.Path.clean_parts animus_coder.Tools.Path.split_from
    animus_coder.Tools.Path.clean_step animus_coder.Tools.Path.dot animus_coder.Tools.Path.dot_dot
    has_prefix animus_coder.Tools.Path.join_path animus_coder.Tools.Path.slashed
    animus_coder.Tools.Disk.find animus_coder.Tools.Disk.parts_of animus_coder.Tools.Disk.find_entry
    animus_coder.Tools.Filesystem.Structure.describe_structure
    animus_coder.Runner.Context.append_with_budget animus_coder.Runner.Context.append_under
    animus_coder.Runner.Context.cut_to join animus_coder.Tools.Filesystem.Structure.describe_folder
    animus_coder.Tools.Walk.sort_entries animus_coder.Tools.Walk.insert_entry
    animus_coder.Tools.Filesystem.Structure.skip_structure_dir to_lower
    animus_coder.Tools.Filesystem.Structure.outline_line
gathered = refl

cut : build_context_files (some tools) [] (codes "f" ∷ codes "d" ∷ []) 3 disk ≡ ok short
unfolding build_context_files animus_coder.Runner.Context.Files.gather elem
    animus_coder.Runner.Context.Files.context_file animus_coder.Tools.Filesystem.stat
    animus_coder.Tools.Filesystem.resolved animus_coder.Tools.Path.resolve text_eq
    animus_coder.Tools.Path.is_abs animus_coder.Tools.Path.clean animus_coder.Tools.Path.render
    animus_coder.Tools.Path.clean_parts animus_coder.Tools.Path.split_from
    animus_coder.Tools.Path.clean_step animus_coder.Tools.Path.dot animus_coder.Tools.Path.dot_dot
    has_prefix animus_coder.Tools.Path.join_path animus_coder.Tools.Path.slashed
    animus_coder.Tools.Disk.find animus_coder.Tools.Disk.parts_of animus_coder.Tools.Disk.find_entry
    animus_coder.Tools.Filesystem.read_file animus_coder.Tools.Disk.read
    animus_coder.Runner.Context.append_with_budget animus_coder.Runner.Context.append_under
    animus_coder.Runner.Context.cut_to
cut = refl

build_context_files-Fits_example :
    (0 < 3 → size_of short ≤ 3 + 12)
    × All (λ (f : ContextFile). length f.content ≤ per_file_cap 3 + 12) short
build_context_files-Fits_example =
    build_context_files-Fits tools [] (codes "f" ∷ codes "d" ∷ []) 3 disk short cut
