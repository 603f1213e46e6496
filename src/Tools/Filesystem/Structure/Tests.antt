-- ===== src/Tools/Filesystem/Structure/Tests.antt =====
-- Checks of DescribeStructure in internal/tools/filesystem.go on a concrete disk.
use animus_coder.Base.{
  ◌-◌, ◌≤◌, ◌<◌, ◌≡◌, refl, true, [], ◌∷◌, arith, length, codes, text_eq, to_lower, has_prefix,
  elem, insert, pos, show_nat, join, ok,
}
use animus_coder.Tools.Disk.{Node, file, folder, entry, done}
use animus_coder.Tools.Filesystem.{Filesystem}
use animus_coder.Tools.Filesystem.Structure.{describe_folder, describe_structure}
use animus_coder.Tools.Filesystem.Structure.Laws.{describe_folder_bounds}

abbrev base_node : Node
base_node = folder (
    entry (codes "b") (file (codes "1")) (
      entry (codes "vendor") (folder done)
        (entry (codes "a") (folder (entry (codes "z") (file (codes "2")) done)) done)))

abbrev disk : Node
disk = folder (entry (codes "w") base_node done)

abbrev tool : Filesystem
tool = record { guard = record { base_dir = codes "/w" }; allow_write = true; allow_read = true }

whole :
    describe_structure tool (codes ".") (pos 0) (pos 0) disk
    ≡ ok (join (codes "./" ∷ codes "- a/" ∷ codes "  - z" ∷ codes "- b" ∷ []) (10 ∷ []))
unfolding describe_structure animus_coder.Tools.Filesystem.resolved animus_coder.Tools.Path.resolve
    text_eq animus_coder.Tools.Path.is_abs animus_coder.Tools.Path.clean
    animus_coder.Tools.Path.render animus_coder.Tools.Path.clean_parts
    animus_coder.Tools.Path.split_from animus_coder.Tools.Path.clean_step
    animus_coder.Tools.Path.dot has_prefix animus_coder.Tools.Path.join_path
    animus_coder.Tools.Path.dot_dot animus_coder.Tools.Path.slashed animus_coder.Tools.Disk.find
    animus_coder.Tools.Disk.parts_of show_nat animus_coder.Base.Order.text_lt elem join
    animus_coder.Base.lower_byte to_lower animus_coder.Tools.Disk.find_entry
    animus_coder.Tools.Filesystem.Structure.add_line describe_folder
    animus_coder.Tools.Filesystem.Structure.indent
    animus_coder.Tools.Filesystem.Structure.outline_line
    animus_coder.Tools.Filesystem.Structure.skip_structure_dir
    animus_coder.Tools.Filesystem.Structure.truncate
    animus_coder.Tools.Filesystem.Structure.truncation_line animus_coder.Tools.Path.go_up
    animus_coder.Tools.Walk.insert_entry animus_coder.Tools.Walk.sort_entries
whole = refl

-- A limit of two entries that is reached in a folder does not stop its parent.
past_limit :
    describe_structure tool (codes ".") (pos 0) (pos 2) disk
    ≡ ok (
        join
          (codes "./"
            ∷ codes "- a/"
            ∷ codes "  - z"
            ∷ codes "  ... truncated after 2 entries"
            ∷ codes "- b"
            ∷ codes "... truncated after 2 entries"
            ∷ [])
          (10 ∷ []))
unfolding describe_structure animus_coder.Tools.Filesystem.resolved animus_coder.Tools.Path.resolve
    text_eq animus_coder.Tools.Path.is_abs animus_coder.Tools.Path.clean
    animus_coder.Tools.Path.render animus_coder.Tools.Path.clean_parts
    animus_coder.Tools.Path.split_from animus_coder.Tools.Path.clean_step
    animus_coder.Tools.Path.dot has_prefix animus_coder.Tools.Path.join_path
    animus_coder.Tools.Path.dot_dot animus_coder.Tools.Path.slashed animus_coder.Tools.Disk.find
    animus_coder.Tools.Disk.parts_of show_nat animus_coder.Base.Order.text_lt elem join
    animus_coder.Base.lower_byte to_lower animus_coder.Tools.Disk.find_entry
    animus_coder.Tools.Filesystem.Structure.add_line describe_folder
    animus_coder.Tools.Filesystem.Structure.indent
    animus_coder.Tools.Filesystem.Structure.outline_line
    animus_coder.Tools.Filesystem.Structure.skip_structure_dir
    animus_coder.Tools.Filesystem.Structure.truncate
    animus_coder.Tools.Filesystem.Structure.truncation_line animus_coder.Tools.Path.go_up
    animus_coder.Tools.Walk.insert_entry animus_coder.Tools.Walk.sort_entries
past_limit = refl

describe_folder_bounds_example :
    let o = describe_folder 3 2 1 base_node (record { lines = codes "./" ∷ []; added = 0 }) in
    (o.added < 5) × (length o.lines ≤ 8)
describe_folder_bounds_example =
    describe_folder_bounds 3 2 (codes "./") base_node (omega arith) (omega arith)
