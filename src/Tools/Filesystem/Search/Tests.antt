-- ===== src/Tools/Filesystem/Search/Tests.antt =====
-- Checks of Search in internal/tools/filesystem.go on a concrete disk.
use animus_coder.Base.{
  ◌≡◌, refl, true, some, [], ◌∷◌, ◌++◌, take, Text, codes, text_eq, has_prefix, contains, insert,
  pos, join, ok,
}
use animus_coder.Tools.Disk.{Node, file, folder, entry, done, find, parts_of}
use animus_coder.Tools.Walk.{sort_node}
use animus_coder.Tools.Walk.Laws.{files_below}
use animus_coder.Tools.Filesystem.{Filesystem, resolved}
use animus_coder.Tools.Filesystem.Search.{scan_lines, search_files}
use animus_coder.Tools.Filesystem.Search.Laws.{all_hits, search_files-all_hits}

abbrev source : Text
source = codes "let" ++ (13 ∷ 10 ∷ (codes "x = 1" ++ (10 ∷ codes "let y")))

-- A folder with a folder and a file, out of order.
abbrev base_node : Node
base_node = folder (
    entry (codes "b") (file source)
      (entry (codes "a") (folder (entry (codes "z") (file source) done)) done))

abbrev disk : Node
disk = folder (entry (codes "w") base_node done)

abbrev tool : Filesystem
tool = record { guard = record { base_dir = codes "/w" }; allow_write = true; allow_read = true }

scanned : scan_lines source ≡ codes "let" ∷ codes "x = 1" ∷ codes "let y" ∷ []
unfolding scan_lines
scanned = refl

admitted : resolved tool (codes ".") ≡ ok (codes "w" ∷ [])
unfolding resolved animus_coder.Tools.Path.resolve text_eq animus_coder.Tools.Path.is_abs
    animus_coder.Tools.Path.clean animus_coder.Tools.Path.render animus_coder.Tools.Path.clean_parts
    animus_coder.Tools.Path.split_from animus_coder.Tools.Path.clean_step
    animus_coder.Tools.Path.dot has_prefix animus_coder.Tools.Path.join_path
    animus_coder.Tools.Path.dot_dot animus_coder.Tools.Path.slashed parts_of
admitted = refl

base_found : find (codes "w" ∷ []) disk ≡ some base_node
unfolding find animus_coder.Tools.Disk.find_entry text_eq
base_found = refl

-- The limit ends the walk after the first line of the second file.
three_hits :
    search_files tool (codes ".") (codes "let") (pos 3) disk
    ≡ ok (
        record { path = codes "a/z"; line = 1; snippet = codes "let" }
        ∷ record { path = codes "a/z"; line = 3; snippet = codes "let y" }
        ∷ record { path = codes "b"; line = 1; snippet = codes "let" }
        ∷ [])
unfolding search_files text_eq resolved animus_coder.Tools.Path.resolve
    animus_coder.Tools.Path.is_abs animus_coder.Tools.Path.clean animus_coder.Tools.Path.render
    animus_coder.Tools.Path.clean_parts animus_coder.Tools.Path.split_from
    animus_coder.Tools.Path.clean_step animus_coder.Tools.Path.dot has_prefix
    animus_coder.Tools.Path.join_path animus_coder.Tools.Path.dot_dot
    animus_coder.Tools.Path.slashed animus_coder.Tools.Filesystem.Walks.walk_dir find
    animus_coder.Base.Order.text_lt contains animus_coder.Tools.Disk.find_entry parts_of
    animus_coder.Tools.Filesystem.Search.drop_cr animus_coder.Tools.Filesystem.Search.emit
    animus_coder.Tools.Filesystem.Search.scan_from scan_lines
    animus_coder.Tools.Filesystem.Search.search_lines
    animus_coder.Tools.Filesystem.Search.search_node animus_coder.Tools.Path.go_up
    animus_coder.Tools.Walk.after animus_coder.Tools.Walk.ended animus_coder.Tools.Walk.insert_entry
    animus_coder.Tools.Walk.rel animus_coder.Tools.Walk.rel_parts sort_node
    animus_coder.Tools.Walk.walk_node
three_hits = refl

search_files-all_hits_example :
    search_files tool (codes ".") (codes "let") (pos 3) disk
    ≡ ok (
        take 3 (
          all_hits
            (codes "let")
            (parts_of (codes "/w"))
            (files_below (codes "w" ∷ []) (sort_node base_node))))
search_files-all_hits_example =
    search_files-all_hits tool (codes ".") (codes "let") (pos 3) disk (codes "w" ∷ []) base_node
      (λ e. cc) admitted base_found
