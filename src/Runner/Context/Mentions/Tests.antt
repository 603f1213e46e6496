-- ===== src/Runner/Context/Mentions/Tests.antt =====
-- Checks of the paths that are discovered on a concrete disk.
use animus_coder.Base.{◌≡◌, refl, false, true, [], ◌∷◌, ◌++◌, codes, text_eq, elem}
use animus_coder.Tools.Disk.{Node, file, folder, entry, done}
use animus_coder.Tools.Filesystem.{Filesystem}
use animus_coder.Runner.Context.Mentions.{
  extract_mentioned_paths, default_paths, discover_context_paths,
}
use animus_coder.Runner.Context.Mentions.Laws.{AreFound, Covers, discover_context_paths-AreFound}

abbrev tool : Filesystem
tool = record { guard = record { base_dir = codes "/w" }; allow_write = false; allow_read = true }

abbrev disk : Node
disk = folder (
    entry (codes "w") (folder (entry (codes "d") (folder (entry (codes "g") (file []) done)) done))
      done)

-- A path that is named twice, one that is missing, and the base directory itself.
discovered :
    discover_context_paths tool (codes "see d/g, d/g and d/h.") disk ≡ codes "d/g" ∷ codes "." ∷ []
unfolding discover_context_paths extract_mentioned_paths text_eq elem animus_coder.Base.trim_space
    animus_coder.Tools.Filesystem.stat animus_coder.Tools.Filesystem.resolved
    animus_coder.Tools.Path.resolve animus_coder.Tools.Path.is_abs animus_coder.Tools.Path.clean
    animus_coder.Tools.Path.render animus_coder.Tools.Path.clean_parts
    animus_coder.Tools.Path.split_from animus_coder.Tools.Path.clean_step
    animus_coder.Tools.Path.dot animus_coder.Tools.Path.dot_dot animus_coder.Base.has_prefix
    animus_coder.Tools.Path.join_path animus_coder.Base.is_space animus_coder.Base.keep_right
    animus_coder.Base.trim_left animus_coder.Base.trim_right
    animus_coder.Runner.Context.Mentions.cut_left animus_coder.Runner.Context.Mentions.cut_right
    animus_coder.Runner.Context.Mentions.has_separator animus_coder.Runner.Context.Mentions.is_alnum
    animus_coder.Runner.Context.Mentions.is_cut animus_coder.Runner.Context.Mentions.is_path_byte
    animus_coder.Runner.Context.Mentions.keep_existing
    animus_coder.Runner.Context.Mentions.keep_mentions
    animus_coder.Runner.Context.Mentions.matches_from animus_coder.Runner.Context.Mentions.trim_cut
    animus_coder.Tools.Disk.find animus_coder.Tools.Disk.find_entry animus_coder.Tools.Disk.parts_of
    animus_coder.Tools.Path.go_up animus_coder.Tools.Path.slashed
discovered = refl

discover_context_paths-AreFound_example :
    AreFound tool disk (discover_context_paths tool (codes "see d/g, d/g and d/h.") disk)
    × Covers tool disk
        (discover_context_paths tool (codes "see d/g, d/g and d/h.") disk)
        (extract_mentioned_paths (codes "see d/g, d/g and d/h.") ++ default_paths)
discover_context_paths-AreFound_example =
    discover_context_paths-AreFound tool (codes "see d/g, d/g and d/h.") disk
