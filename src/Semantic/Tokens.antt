-- ===== src/Semantic/Tokens.antt =====
-- internal/semantic/engine.go: the tokens of a text, their overlap, and the summary of a content.
use animus_coder.Base.{
  ℕ, ◌+◌, Bool, ◌&&◌, ◌||◌, List, [], ◌∷◌, ◌++◌, ltb, leb, ◌==◌, if◌then◌else◌, length, take, Text,
  codes, text_eq, trim_space, to_lower, elem,
}

-- [A-Za-z0-9_]
unfoldable pub is_token_byte : ℕ → Bool
is_token_byte c =
    (leb b'a' c && leb c b'z')
    || (leb b'A' c && leb c b'Z')
    || (leb b'0' c && leb c b'9')
    || c == b'_'

-- A token that has at least one letter.
abbrev pub push_token : Text → List Text → List Text
push_token [] rest = rest
push_token (c ∷ cur) rest = (c ∷ cur) ∷ rest

-- The tokens of `s`, the first one behind the letters read so far.
unfoldable pub tokens_from : Text → Text → List Text
tokens_from cur [] = push_token cur []
tokens_from cur (c ∷ s) =
    let more = tokens_from (cur ++ c ∷ []) s in
    let stop = push_token cur (tokens_from [] s) in if is_token_byte c then more else stop

unfoldable pub tokenize : Text → List Text
unfolding tokens_from is_token_byte
tokenize s = tokens_from [] (to_lower s)

-- How many of the query's tokens stand in the document.
unfoldable pub overlap : List Text → List Text → ℕ
overlap [] doc = 0
overlap (q ∷ query) doc = (if elem q doc then 1 else 0) + overlap query doc

-- The numerator of the score; its denominator is the number of the query's tokens.
unfoldable pub overlap_score : List Text → List Text → ℕ
unfolding overlap
overlap_score [] doc = 0
overlap_score (q ∷ query) [] = 0
overlap_score (q ∷ query) (d ∷ doc) = overlap (q ∷ query) (d ∷ doc)

-- strings.Split(s, "\n"), with the bytes of the current line.
unfoldable pub lines_from : Text → Text → List Text
lines_from cur [] = cur ∷ []
lines_from cur (c ∷ s) =
    let stop = cur ∷ lines_from [] s in
    let more = lines_from (cur ++ c ∷ []) s in if c == 10 then stop else more

abbrev pub shorten : Text → Text
shorten s = if ltb 200 (length s) then take 200 s ++ codes "..." else s

-- The first line that is not blank; `content` where there is none.
unfoldable pub summary_of : Text → List Text → Text
summary_of content [] = shorten content
summary_of content (line ∷ rest) =
    if text_eq (trim_space line) [] then summary_of content rest else shorten (trim_space line)

unfoldable pub summarize : Text → Text
unfolding summary_of lines_from
summarize content = summary_of content (lines_from [] content)
