-- ===== src/Tools/Filesystem/Walks/Tests.antt =====
-- Checks of ListDir and WalkFiles in internal/tools/filesystem.go on a concrete disk.
use animus_coder.Base.{
  ◌≡◌, refl, true, false, not, some, List, [], ◌∷◌, ◌++◌, Text, codes, text_eq, has_prefix, insert,
  pos, join, ok, err,
}
use animus_coder.Tools.Disk.{Node, file, folder, entry, done, find, parts_of}
use animus_coder.Tools.Walk.{sort_node}
use animus_coder.Tools.Walk.Laws.{files_below}
use animus_coder.Tools.Filesystem.{Filesystem, resolved, not_directory}
use animus_coder.Tools.Filesystem.Walks.{list_dir, walk_files}
use animus_coder.Tools.Filesystem.Walks.Laws.{limited, steady, for_paths, walk_files-for_paths}

abbrev base_node : Node
base_node = folder (
    entry (codes "b") (file (codes "1"))
      (entry (codes "a") (folder (entry (codes "z") (file (codes "2")) done)) done))

abbrev disk : Node
disk = folder (entry (codes "w") base_node done)

abbrev tool : Filesystem
tool = record { guard = record { base_dir = codes "/w" }; allow_write = true; allow_read = true }

-- A callback that keeps the paths.
abbrev note : Text → List Text → List Text
note rel_path seen = seen ++ rel_path ∷ []

listed :
    list_dir tool (codes ".") disk
    ≡ ok (
        record { name = codes "a"; is_dir = true }
        ∷ record { name = codes "b"; is_dir = false }
        ∷ [])
unfolding list_dir resolved animus_coder.Tools.Path.resolve text_eq animus_coder.Tools.Path.is_abs
    animus_coder.Tools.Path.clean animus_coder.Tools.Path.render animus_coder.Tools.Path.clean_parts
    animus_coder.Tools.Path.split_from animus_coder.Tools.Path.clean_step
    animus_coder.Tools.Path.dot has_prefix animus_coder.Tools.Path.join_path
    animus_coder.Tools.Path.dot_dot animus_coder.Tools.Path.slashed find parts_of
    animus_coder.Base.Order.text_lt animus_coder.Tools.Disk.find_entry
    animus_coder.Tools.Filesystem.Walks.entries_of animus_coder.Tools.Path.go_up
    animus_coder.Tools.Walk.insert_entry animus_coder.Tools.Walk.sort_entries
listed = refl

not_listed : list_dir tool (codes "b") disk ≡ err not_directory
unfolding list_dir resolved animus_coder.Tools.Path.resolve text_eq animus_coder.Tools.Path.is_abs
    animus_coder.Tools.Path.clean animus_coder.Tools.Path.render animus_coder.Tools.Path.clean_parts
    animus_coder.Tools.Path.split_from animus_coder.Tools.Path.clean_step
    animus_coder.Tools.Path.dot animus_coder.Tools.Path.dot_dot has_prefix
    animus_coder.Tools.Path.join_path animus_coder.Tools.Path.slashed find parts_of
    animus_coder.Base.Order.text_lt animus_coder.Tools.Disk.find_entry
    animus_coder.Tools.Filesystem.Walks.entries_of animus_coder.Tools.Path.go_up
    animus_coder.Tools.Walk.insert_entry animus_coder.Tools.Walk.sort_entries
not_listed = refl

all_walked :
    walk_files tool (codes ".") (pos 0) (steady note) disk []
    ≡ (ok tt, codes "a/z" ∷ codes "b" ∷ [])
unfolding walk_files resolved animus_coder.Tools.Path.resolve text_eq animus_coder.Tools.Path.is_abs
    animus_coder.Tools.Path.clean animus_coder.Tools.Path.render animus_coder.Tools.Path.clean_parts
    animus_coder.Tools.Path.split_from animus_coder.Tools.Path.clean_step
    animus_coder.Tools.Path.dot has_prefix animus_coder.Tools.Path.join_path
    animus_coder.Tools.Path.dot_dot animus_coder.Tools.Path.slashed
    animus_coder.Tools.Filesystem.Walks.walk_dir find animus_coder.Base.Order.text_lt
    animus_coder.Tools.Disk.find_entry parts_of animus_coder.Tools.Filesystem.Walks.visit_file
    animus_coder.Tools.Path.go_up animus_coder.Tools.Walk.after animus_coder.Tools.Walk.ended
    animus_coder.Tools.Walk.insert_entry animus_coder.Tools.Walk.rel
    animus_coder.Tools.Walk.rel_parts sort_node animus_coder.Tools.Walk.walk_node
all_walked = refl

one_walked : walk_files tool (codes ".") (pos 1) (steady note) disk [] ≡ (ok tt, codes "a/z" ∷ [])
unfolding walk_files resolved animus_coder.Tools.Path.resolve text_eq animus_coder.Tools.Path.is_abs
    animus_coder.Tools.Path.clean animus_coder.Tools.Path.render animus_coder.Tools.Path.clean_parts
    animus_coder.Tools.Path.split_from animus_coder.Tools.Path.clean_step
    animus_coder.Tools.Path.dot has_prefix animus_coder.Tools.Path.join_path
    animus_coder.Tools.Path.dot_dot animus_coder.Tools.Path.slashed
    animus_coder.Tools.Filesystem.Walks.walk_dir find animus_coder.Base.Order.text_lt
    animus_coder.Tools.Disk.find_entry parts_of animus_coder.Tools.Filesystem.Walks.visit_file
    animus_coder.Tools.Path.go_up animus_coder.Tools.Walk.after animus_coder.Tools.Walk.ended
    animus_coder.Tools.Walk.insert_entry animus_coder.Tools.Walk.rel
    animus_coder.Tools.Walk.rel_parts sort_node animus_coder.Tools.Walk.walk_node
one_walked = refl

admitted : resolved tool (codes ".") ≡ ok (codes "w" ∷ [])
unfolding resolved animus_coder.Tools.Path.resolve text_eq animus_coder.Tools.Path.is_abs
    animus_coder.Tools.Path.clean animus_coder.Tools.Path.render animus_coder.Tools.Path.clean_parts
    animus_coder.Tools.Path.split_from animus_coder.Tools.Path.clean_step
    animus_coder.Tools.Path.dot has_prefix animus_coder.Tools.Path.join_path
    animus_coder.Tools.Path.dot_dot animus_coder.Tools.Path.slashed parts_of
admitted = refl

base_found : find (codes "w" ∷ []) disk ≡ some base_node
unfolding find animus_coder.Tools.Disk.find_entry text_eq
base_found = refl

walk_files-for_paths_example : walk_files tool (codes ".") (pos 1) (steady note) disk [] ≡ (
  ok tt,
  for_paths
      (parts_of (codes "/w"))
      note
      (limited (pos 1) 0 (files_below (codes "w" ∷ []) (sort_node base_node)))
      [],
)
walk_files-for_paths_example =
    walk_files-for_paths tool (codes ".") (pos 1) note disk [] (codes "w" ∷ []) base_node admitted
      base_found
