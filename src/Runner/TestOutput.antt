-- ===== src/Runner/TestOutput.antt =====
-- internal/rpc/agent/test_parser.go: the failing tests named in the output of the test command. The
-- regular expression (FAIL|Error|ERROR):?\s+([A-Za-z0-9_./-]+), without regard to case, is a matcher
-- on bytes; each of its parts can be matched in one way only.
pub mod Report
mod Tests
use animus_coder.Base.{
  ℕ, Bool, true, false, ◌&&◌, ◌||◌, Option, none, some, List, [], ◌∷◌, ◌++◌, leb, ◌==◌,
  if◌then◌else◌, Text, codes, text_eq, trim_space, join, err, lower_byte,
}
use animus_coder.Tools.Dedupe.{dedupe_strings}

-- `FAIL`, in lower case, at the start of a text: what stands behind it.
unfoldable pub strip_word : Text → Text → Option Text
strip_word [] s = some s
strip_word (c ∷ word) [] = none
strip_word (c ∷ word) (d ∷ s) =
    let rest = strip_word word s in if lower_byte d == c then rest else none

unfoldable pub strip_keyword : Text → Option Text
unfolding strip_word
strip_keyword s = elim (strip_word (codes "fail") s) [
  | some rest ↦ some rest
  | none ↦ strip_word (codes "error") s
]

-- :?
unfoldable pub strip_colon : Text → Text
strip_colon [] = []
strip_colon (c ∷ s) = if c == b':' then s else c ∷ s

-- \s
unfoldable pub is_re_space : ℕ → Bool
is_re_space c = c == 32 || (c == 9 || (c == 10 || (c == 12 || c == 13)))

unfoldable pub drop_spaces : Text → Text
drop_spaces [] = []
drop_spaces (c ∷ s) = let rest = drop_spaces s in if is_re_space c then rest else c ∷ s

-- \s+
unfoldable pub strip_spaces : Text → Option Text
unfolding drop_spaces
strip_spaces [] = none
strip_spaces (c ∷ s) = if is_re_space c then some (drop_spaces s) else none

-- [A-Za-z0-9_./-] on one byte.
unfoldable pub is_name_byte : ℕ → Bool
is_name_byte c =
    (leb b'a' (lower_byte c) && leb (lower_byte c) b'z')
    || ((leb b'0' c && leb c b'9') || (c == b'_' || (c == b'.' || (c == b'/' || c == b'-'))))

abbrev pub long_s : Text
long_s = 197 ∷ 191 ∷ []

abbrev pub kelvin_sign : Text
kelvin_sign = 226 ∷ 132 ∷ 170 ∷ []

-- The bytes of a letter of the class. Without regard to case, "ſ" is an "s" and the Kelvin sign a "k".
unfoldable pub is_name_letter : Text → Bool
is_name_letter [] = false
is_name_letter (c ∷ []) = is_name_byte c
is_name_letter (c ∷ d ∷ s) = text_eq (c ∷ d ∷ s) long_s || text_eq (c ∷ d ∷ s) kelvin_sign

-- The first bytes of such a letter.
unfoldable pub begins_letter : Text → Bool
begins_letter s = text_eq s (197 ∷ []) || (text_eq s (226 ∷ []) || text_eq s (226 ∷ 132 ∷ []))

-- The letters of the class in front of a text, behind the bytes read of the next one.
unfoldable pub name_from : Text → Text → Text
name_from letter [] = []
name_from letter (c ∷ s) =
    let read = letter ++ c ∷ [] in
    let whole = read ++ name_from [] s in
    let part = name_from read s in
    if is_name_letter read then whole else if begins_letter read then part else []

unfoldable pub name_prefix : Text → Text
unfolding name_from
name_prefix s = name_from [] s

-- The second group, if it is not empty.
unfoldable pub whole_name : Option Text → Option Text
whole_name none = none
whole_name (some s) = let name = name_prefix s in if text_eq name [] then none else some name

behind_keyword : Option Text → Option Text
unfolding strip_spaces strip_colon
behind_keyword none = none
behind_keyword (some s) = strip_spaces (strip_colon s)

-- The match at the start of a text.
unfoldable pub match_here : Text → Option Text
unfolding behind_keyword strip_keyword
match_here s = whole_name (behind_keyword (strip_keyword s))

-- The leftmost match in a line.
unfoldable pub find_name : Text → Option Text
find_name [] = none
find_name (c ∷ s) =
    let later = find_name s in elim (match_here (c ∷ s)) [ some name ↦ some name | none ↦ later ]

-- strings.Split(output, "\n"), with the bytes of the current line.
unfoldable pub lines_from : Text → Text → List Text
lines_from cur [] = cur ∷ []
lines_from cur (c ∷ s) =
    let stop = cur ∷ lines_from [] s in
    let more = lines_from (cur ++ c ∷ []) s in if c == b'\n' then stop else more

-- `append(names, …)` under its test.
abbrev pub kept : Option Text → List Text → List Text
kept none rest = rest
kept (some name) rest = trim_space name ∷ rest

unfoldable pub names_in : List Text → List Text
names_in [] = []
names_in (line ∷ lines) = kept (find_name line) (names_in lines)

is_empty : List Text → Bool
is_empty [] = true
is_empty (x ∷ xs) = false

unfoldable pub parse_test_output : Text → Text × List Text
unfolding is_empty
parse_test_output output =
    let names = names_in (lines_from [] output) in
    (
      if is_empty names
          then []
          else codes "Failing tests: " ++ join (dedupe_strings names) (codes ", "),
      dedupe_strings names,
    )
