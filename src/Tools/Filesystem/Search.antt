-- ===== src/Tools/Filesystem/Search.antt =====
-- internal/tools/filesystem.go: Search, with the lines that bufio.Scanner yields.
pub mod Laws
mod Tests
use animus_coder.Base.{
  ℕ, ◌+◌, ◌*◌, List, [], ◌∷◌, ◌++◌, ltb, leb, ◌==◌, if◌then◌else◌, length, Text, text_eq, contains,
  ℤ, pos, pos_part, is_positive, Result, ok, err,
}
use animus_coder.Tools.Disk.{Node, file, folder, parts_of}
use animus_coder.Tools.Walk.{Flow, go_on, skip_dir, rel}
use animus_coder.Tools.Filesystem.{Filesystem, FsError, pattern_required, resolved}
use animus_coder.Tools.Filesystem.Walks.{walk_dir}

pub record SearchResult : Type 0 where
  pub path : Text
  pub line : ℕ
  pub snippet : Text

-- A line without the "\r" at its end.
unfoldable pub drop_cr : Text → Text
drop_cr [] = []
drop_cr (c ∷ []) = if c == 13 then [] else c ∷ []
drop_cr (c ∷ d ∷ s) = c ∷ drop_cr (d ∷ s)

-- bufio.MaxScanTokenSize
abbrev pub max_token : ℕ
max_token = 64 * 1024

-- The scanner stops for good at a line that does not fit in its buffer.
unfoldable pub emit : Text → List Text → List Text
unfolding drop_cr
emit line rest = if ltb (length line) max_token then drop_cr line ∷ rest else []

-- The lines of `s`, the first one behind the bytes read so far. A last line may lack its "\n".
unfoldable pub scan_from : Text → Text → List Text
unfolding emit
scan_from [] [] = []
scan_from (c ∷ cur) [] = emit (c ∷ cur) []
scan_from cur (c ∷ s) =
    let stop = emit cur (scan_from [] s) in
    let more = scan_from (cur ++ c ∷ []) s in if c == 10 then stop else more

unfoldable pub scan_lines : Text → List Text
unfolding scan_from
scan_lines content = scan_from [] content

abbrev pub hit_at : Text → ℕ → Text → SearchResult
hit_at rel_path n line = record { path = rel_path; line = n; snippet = line }

-- The loop over the lines of one file.
unfoldable pub search_lines :
    ℕ → Text → Text → ℕ → List Text → List SearchResult → Flow FsError × List SearchResult
search_lines max_results pattern rel_path n [] results = (go_on, results)
search_lines max_results pattern rel_path n (line ∷ rest) results =
    let found = results ++ hit_at rel_path n line ∷ [] in
    let more = search_lines max_results pattern rel_path (n + 1) rest found in
    let past = search_lines max_results pattern rel_path (n + 1) rest results in
    if contains line pattern
    then if leb max_results (length found) then (skip_dir, found) else more
    else past

-- The callback of the walk. A file that is reached can be opened.
unfoldable pub search_node :
    ℕ → Text → List Text → List Text → Node → List SearchResult → Flow FsError × List SearchResult
unfolding search_lines scan_lines
search_node max_results pattern base path (folder es) results =
    if leb max_results (length results) then (skip_dir, results) else (go_on, results)
search_node max_results pattern base path (file content) results =
    if leb max_results (length results)
    then (skip_dir, results)
    else search_lines max_results pattern (rel base path) 1 (scan_lines content) results

-- `n`, or `default` where it is not positive.
abbrev pub positive_or : ℤ → ℕ → ℕ
positive_or n default = if is_positive n then pos_part n else default

-- The results found so far are dropped with an error; the callers do not read them.
abbrev pub searched :
    Result FsError (Unit {0}) × List SearchResult → Result FsError (List SearchResult)
searched (ok u, results) = ok results
searched (err e, results) = err e

abbrev pub search_parts :
    Filesystem → Text → ℕ → Node → Result FsError (List Text) → Result FsError (List SearchResult)
search_parts f pattern max_results disk (err e) = err e
search_parts f pattern max_results disk (ok ps) =
    searched (walk_dir (search_node max_results pattern (parts_of f.guard.base_dir)) ps disk [])

unfoldable pub search_files :
    Filesystem → Text → Text → ℤ → Node → Result FsError (List SearchResult)
search_files f root pattern max_results disk =
    if text_eq pattern []
    then err pattern_required
    else search_parts f pattern (positive_or max_results 20) disk (resolved f root)
