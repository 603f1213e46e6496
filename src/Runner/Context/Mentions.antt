-- ===== src/Runner/Context/Mentions.antt =====
-- internal/rpc/agent/runner.go: `extractMentionedPaths` and `discoverContextPaths`, the paths that a
-- prompt names and those that are tried for every prompt.
pub mod Laws
mod Tests
use animus_coder.Base.{
  ℕ, Bool, true, false, ◌&&◌, ◌||◌, not, List, [], ◌∷◌, ◌++◌, leb, ◌==◌, if◌then◌else◌, length,
  Text, codes, text_eq, trim_space, elem, Result, ok, err,
}
use animus_coder.Tools.Disk.{Node}
use animus_coder.Tools.Filesystem.{Filesystem, FsError, stat}

-- [A-Za-z0-9]
unfoldable pub is_alnum : ℕ → Bool
is_alnum c = (leb b'a' c && leb c b'z') || (leb b'A' c && leb c b'Z') || (leb b'0' c && leb c b'9')

-- [A-Za-z0-9._/-]
unfoldable pub is_path_byte : ℕ → Bool
unfolding is_alnum
is_path_byte c = is_alnum c || c == b'.' || c == b'_' || c == b'/' || c == b'-'

-- A match has a first byte and at least one more.
abbrev pub push_match : Text → List Text → List Text
push_match [] rest = rest
push_match (c ∷ []) rest = rest
push_match (c ∷ d ∷ cur) rest = (c ∷ d ∷ cur) ∷ rest

-- All matches of `[A-Za-z0-9][A-Za-z0-9._/-]+`, the first one behind the bytes read so far.
unfoldable pub matches_from : Text → Text → List Text
matches_from cur [] = push_match cur []
matches_from [] (c ∷ s) =
    let begin = matches_from (c ∷ []) s in
    let past = matches_from [] s in if is_alnum c then begin else past
matches_from (b ∷ cur) (c ∷ s) =
    let more = matches_from ((b ∷ cur) ++ c ∷ []) s in
    let stop = push_match (b ∷ cur) (matches_from [] s) in if is_path_byte c then more else stop

-- strings.Trim with the cut set ".,;:!\"'"
unfoldable pub is_cut : ℕ → Bool
is_cut c = c == b'.' || c == b',' || c == b';' || c == b':' || c == b'!' || c == b'"' || c == 39

unfoldable pub cut_left : Text → Text
cut_left [] = []
cut_left (c ∷ s) = let rest = cut_left s in if is_cut c then rest else c ∷ s

abbrev pub keep_cut : ℕ → Text → Text
keep_cut c [] = if is_cut c then [] else c ∷ []
keep_cut c (d ∷ s) = c ∷ d ∷ s

unfoldable pub cut_right : Text → Text
cut_right [] = []
cut_right (c ∷ s) = keep_cut c (cut_right s)

unfoldable pub trim_cut : Text → Text
unfolding cut_left cut_right is_cut
trim_cut s = cut_right (cut_left s)

-- strings.ContainsAny(token, "./")
unfoldable pub has_separator : Text → Bool
has_separator [] = false
has_separator (c ∷ s) = c == b'.' || c == b'/' || has_separator s

-- The loop over the matches; what it has kept is what it has seen.
unfoldable pub keep_mentions : List Text → List Text → List Text
keep_mentions out [] = out
keep_mentions out (raw ∷ rest) =
    let token = trim_cut raw in
    let past = keep_mentions out rest in
    let kept = keep_mentions (out ++ token ∷ []) rest in
    if text_eq token []
    then past
    else if not (has_separator token)
    then past
    else if elem token out
    then past
    else kept

unfoldable pub extract_mentioned_paths : Text → List Text
unfolding keep_mentions matches_from is_path_byte trim_cut has_separator
extract_mentioned_paths prompt = keep_mentions [] (matches_from [] prompt)

abbrev pub default_paths : List Text
default_paths =
    codes "."
    ∷ codes "README.md"
    ∷ codes "CONTRIBUTING.md"
    ∷ codes "go.mod"
    ∷ codes "package.json"
    ∷ codes "Makefile"
    ∷ codes "configs/config.yaml"
    ∷ codes "cmd"
    ∷ codes "internal"
    ∷ codes "src"
    ∷ []

abbrev pub found : Result FsError Node → Bool
found (ok node) = true
found (err e) = false

-- The loop over the candidates: it leaves once twelve paths are kept.
unfoldable pub keep_existing : Filesystem → Node → List Text → List Text → List Text
keep_existing fs disk out [] = out
keep_existing fs disk out (raw ∷ rest) =
    let cand = trim_space raw in
    let past = keep_existing fs disk out rest in
    let kept = keep_existing fs disk (out ++ cand ∷ []) rest in
    if text_eq cand []
    then past
    else if elem cand out
    then past
    else if leb 12 (length out)
    then out
    else if found (stat fs cand disk)
    then kept
    else past

unfoldable pub discover_context_paths : Filesystem → Text → Node → List Text
unfolding keep_existing
discover_context_paths fs prompt disk =
    keep_existing fs disk [] (extract_mentioned_paths prompt ++ default_paths)
