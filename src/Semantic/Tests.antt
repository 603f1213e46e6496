-- ===== src/Semantic/Tests.antt =====
-- Checks of internal/semantic/engine.go on a concrete disk.
use animus_coder.Base.{
  ◌≡◌, refl, true, false, some, List, [], ◌∷◌, codes, text_eq, trim_space, is_blank, to_lower,
  has_prefix, elem, insert, pos, join, ok,
}
use animus_coder.Tools.Path.{render}
use animus_coder.Tools.Disk.{Node, file, folder, entry, done, find}
use animus_coder.Tools.Filesystem.{Filesystem, resolved}
use animus_coder.Semantic.{Engine}
use animus_coder.Semantic.Tokens.{tokenize, summarize}
use animus_coder.Semantic.Rank.{Hit}
use animus_coder.Semantic.Search.{semantic_search}
use animus_coder.Semantic.Search.Laws.{IsBest, all_candidates, semantic_search-IsBest}

abbrev disk : Node
disk = folder (
    entry (codes "w")
      (folder (
        entry (codes "b.go") (file (codes "run the Agent")) (
          entry (codes "a.go") (file (codes "agent loop"))
            (entry (codes "c") (file (codes "x")) done))))
      done)

abbrev base_node : Node
base_node = folder (
    entry (codes "b.go") (file (codes "run the Agent")) (
      entry (codes "a.go") (file (codes "agent loop")) (entry (codes "c") (file (codes "x")) done)))

abbrev tool : Filesystem
tool = record { guard = record { base_dir = codes "/w" }; allow_write = true; allow_read = true }

abbrev engine : Engine
engine = record { fs = some tool; max_files = pos 200; max_file_bytes = pos 65536 }

tokens : tokenize (codes "Run a_1-b") ≡ codes "run" ∷ codes "a_1" ∷ codes "b" ∷ []
unfolding tokenize to_lower
tokens = refl

summary : summarize (32 ∷ 10 ∷ codes "  two") ≡ codes "two"
unfolding summarize text_eq trim_space
summary = refl

found :
    semantic_search (some engine) (codes "agent run") (pos 0) disk
    ≡ ok (
        record { path = codes "b.go"; score = 2; snippet = codes "run the Agent" }
        ∷ record { path = codes "a.go"; score = 1; snippet = codes "agent loop" }
        ∷ [])
unfolding semantic_search is_blank tokenize to_lower animus_coder.Tools.Filesystem.Walks.walk_files
    animus_coder.Tools.Filesystem.resolved animus_coder.Tools.Path.resolve text_eq
    animus_coder.Tools.Path.is_abs animus_coder.Tools.Path.clean render
    animus_coder.Tools.Path.clean_parts animus_coder.Tools.Path.split_from
    animus_coder.Tools.Path.clean_step animus_coder.Tools.Path.dot has_prefix
    animus_coder.Tools.Path.join_path animus_coder.Base.Order.text_lt elem
    animus_coder.Base.is_space animus_coder.Base.keep_right animus_coder.Base.lower_byte
    animus_coder.Base.trim_left animus_coder.Base.trim_right trim_space
    animus_coder.Semantic.Rank.ahead animus_coder.Semantic.Rank.insert_hit
    animus_coder.Semantic.Rank.rank animus_coder.Semantic.Search.hit_of
    animus_coder.Semantic.Tokens.is_token_byte animus_coder.Semantic.Tokens.lines_from
    animus_coder.Semantic.Tokens.overlap animus_coder.Semantic.Tokens.overlap_score summarize
    animus_coder.Semantic.Tokens.summary_of animus_coder.Semantic.Tokens.tokens_from
    animus_coder.Tools.Disk.find animus_coder.Tools.Disk.find_entry animus_coder.Tools.Disk.parts_of
    animus_coder.Tools.Disk.read animus_coder.Tools.Filesystem.Walks.visit_file
    animus_coder.Tools.Filesystem.Walks.walk_dir animus_coder.Tools.Filesystem.read_file
    animus_coder.Tools.Path.dot_dot animus_coder.Tools.Path.go_up animus_coder.Tools.Path.slashed
    animus_coder.Tools.Walk.after animus_coder.Tools.Walk.ended animus_coder.Tools.Walk.insert_entry
    animus_coder.Tools.Walk.rel animus_coder.Tools.Walk.rel_parts animus_coder.Tools.Walk.sort_node
    animus_coder.Tools.Walk.walk_node
found = refl

asked : is_blank (codes "agent run") ≡ false
unfolding is_blank
asked = refl

words : tokenize (codes "agent run") ≡ codes "agent" ∷ codes "run" ∷ []
unfolding tokenize to_lower
words = refl

admitted : resolved tool (codes ".") ≡ ok (codes "w" ∷ [])
unfolding resolved animus_coder.Tools.Path.resolve text_eq animus_coder.Tools.Path.is_abs
    animus_coder.Tools.Path.clean render animus_coder.Tools.Path.clean_parts
    animus_coder.Tools.Path.split_from animus_coder.Tools.Path.clean_step
    animus_coder.Tools.Path.dot has_prefix animus_coder.Tools.Path.join_path
    animus_coder.Tools.Path.dot_dot animus_coder.Tools.Path.slashed animus_coder.Tools.Disk.parts_of
admitted = refl

base_found : find (codes "w" ∷ []) disk ≡ some base_node
unfolding find animus_coder.Tools.Disk.find_entry text_eq
base_found = refl

semantic_search-IsBest_example :
    (hits : List Hit) × (semantic_search (some engine) (codes "agent run") (pos 1) disk ≡ ok hits)
    × IsBest 1
        (all_candidates engine tool (tokenize (codes "agent run")) disk (codes "w" ∷ []) base_node)
        hits
semantic_search-IsBest_example =
    semantic_search-IsBest engine tool (codes "agent run") (pos 1) disk (codes "w" ∷ []) base_node
      refl asked (λ e. cc (words, e)) admitted base_found
