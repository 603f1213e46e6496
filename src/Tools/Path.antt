-- ===== src/Tools/Path.antt =====
-- internal/tools/path.go: the guard that keeps paths inside a base directory, with what it uses of
-- package path/filepath on Unix. The base directory is what filepath.Abs returns: clean and rooted.
pub mod Segments
pub mod Contained
pub mod Reached
mod Tests
use animus_coder.Base.{
  ℕ, Bool, true, false, ◌&&◌, ◌||◌, not, List, [], ◌∷◌, ◌++◌, ◌==◌, if◌then◌else◌, Text, codes,
  text_eq, has_prefix, join, Result, ok, err,
}
use mathlib.Core.List.{reverse}

abbrev pub slash : ℕ
slash = b'/'

unfoldable pub dot : Text
dot = codes "."

unfoldable pub dot_dot : Text
dot_dot = codes ".."

-- strings.Split(s, "/"), with the letters of the current part.
unfoldable pub split_from : Text → Text → List Text
split_from cur [] = cur ∷ []
split_from cur (c ∷ s) =
    let stop = cur ∷ split_from [] s in
    let more = split_from (cur ++ c ∷ []) s in if c == slash then stop else more

-- filepath.Clean takes the parts one by one; the kept ones stand newest first. A ".." removes the
-- part before it, is dropped at the root, and is kept at the start of a path that is not rooted.
unfoldable pub go_up : Bool → List Text → List Text
go_up true [] = []
go_up false [] = dot_dot ∷ []
go_up rooted (top ∷ rest) = if text_eq top dot_dot then dot_dot ∷ top ∷ rest else rest

unfoldable pub clean_step : Bool → List Text → Text → List Text
clean_step rooted kept part =
    if text_eq part [] || text_eq part dot
    then kept
    else if text_eq part dot_dot
    then go_up rooted kept
    else part ∷ kept

unfoldable pub clean_parts : Bool → List Text → List Text → List Text
clean_parts rooted kept [] = reverse kept
clean_parts rooted kept (part ∷ parts) = clean_parts rooted (clean_step rooted kept part) parts

-- Every part behind a separator.
unfoldable pub slashed : List Text → Text
slashed [] = []
slashed (part ∷ parts) = slash ∷ (part ++ slashed parts)

unfoldable pub render : Bool → List Text → Text
render true [] = slash ∷ []
render true (part ∷ parts) = slashed (part ∷ parts)
render false [] = dot
render false (part ∷ parts) = part ++ slashed parts

-- filepath.IsAbs
unfoldable pub is_abs : Text → Bool
is_abs [] = false
is_abs (c ∷ s) = c == slash

-- filepath.Clean
unfoldable pub clean : Text → Text
clean [] = dot
clean (c ∷ s) =
    let rooted = is_abs (c ∷ s) in render rooted (clean_parts rooted [] (split_from [] (c ∷ s)))

-- filepath.Join of two texts that are not empty.
unfoldable pub join_path : Text → Text → Text
join_path base p = clean (base ++ (slash ∷ p))

pub data PathError : Type 0 where
  path_required : PathError
  absolute_path : PathError
  escapes_base : PathError

pub record PathGuard : Type 0 where
  pub base_dir : Text

unfoldable pub resolve : PathGuard → Text → Result PathError Text
resolve g p =
    let abs = clean (join_path g.base_dir (clean p)) in
    if text_eq p []
    then err path_required
    else if is_abs (clean p)
    then err absolute_path
    else if not (has_prefix abs (g.base_dir ++ slash ∷ [])) && not (text_eq abs g.base_dir)
    then err escapes_base
    else ok abs
