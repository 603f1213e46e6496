-- ===== src/Semantic/Search.antt =====
-- internal/semantic/engine.go: the search over the files of the tool's filesystem.
pub mod Laws
use animus_coder.Base.{
  ℕ, Option, none, some, List, [], ◌∷◌, ◌++◌, ltb, if◌then◌else◌, length, take, Text, codes,
  is_blank, ℤ, pos, pos_part, Result, ok, err,
}
use animus_coder.Tools.Disk.{Node}
use animus_coder.Tools.Walk.{go_on}
use animus_coder.Tools.Filesystem.{Filesystem, FsError, read_file}
use animus_coder.Tools.Filesystem.Walks.{walk_files}
use animus_coder.Tools.Filesystem.Search.{positive_or}
use animus_coder.Semantic.{Engine}
use animus_coder.Semantic.Tokens.{tokenize, overlap_score, summarize}
use animus_coder.Semantic.Rank.{Hit, rank}

pub data SearchError : Type 0 where
  unavailable : SearchError
  query_required : SearchError
  query_too_short : SearchError
  walk_failed : FsError → SearchError

abbrev pub cut_content : ℤ → Text → Text
cut_content max_bytes content =
    if ltb (pos_part max_bytes) (length content) then take (pos_part max_bytes) content else content

abbrev pub scored : Text → ℕ → Text → List Hit
scored rel_path score content =
    if ltb 0 score
    then record { path = rel_path; score = score; snippet = summarize content } ∷ []
    else []

abbrev pub hit_in : Engine → List Text → Text → Result FsError Text → List Hit
hit_in e query rel_path (err x) = []
hit_in e query rel_path (ok content) =
    let part = cut_content e.max_file_bytes content in
    scored rel_path (overlap_score query (tokenize part)) part

-- What the callback finds in one file: nothing where the file cannot be read or shares no token.
unfoldable pub hit_of : Engine → Filesystem → List Text → Node → Text → List Hit
hit_of e fs query disk rel_path = hit_in e query rel_path (read_file fs rel_path disk)

abbrev pub visit : Engine → Filesystem → List Text → Node → Text → List Hit → List Hit
visit e fs query disk rel_path hits = hits ++ hit_of e fs query disk rel_path

abbrev pub best : ℕ → Result FsError (Unit {0}) × List Hit → Result SearchError (List Hit)
best limit (err x, hits) = err (walk_failed x)
best limit (ok u, hits) = ok (take limit (rank hits))

-- `results[:limit]` where there are more than `limit`.
abbrev pub search_tokens :
    Engine → Filesystem → List Text → ℕ → Node → Result SearchError (List Hit)
search_tokens e fs [] limit disk = err query_too_short
search_tokens e fs (q ∷ query) limit disk = best limit (
    walk_files fs (codes ".") e.max_files
      (λ rel_path hits. (go_on, visit e fs (q ∷ query) disk rel_path hits)) disk [])

abbrev pub search_in : Engine → Text → ℕ → Node → Option Filesystem → Result SearchError (List Hit)
search_in e query limit disk none = err unavailable
search_in e query limit disk (some fs) =
    if is_blank query then err query_required else search_tokens e fs (tokenize query) limit disk

unfoldable pub semantic_search : Option Engine → Text → ℤ → Node → Result SearchError (List Hit)
semantic_search none query limit disk = err unavailable
semantic_search (some e) query limit disk = search_in e query (positive_or limit 5) disk e.fs
