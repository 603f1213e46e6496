-- ===== src/Tools/Dedupe.antt =====
-- `dedupeStrings` of internal/tools/sandbox.go, whose loop is also `unique` of
-- internal/rpc/agent/test_parser.go.
pub mod Laws
mod Tests
use animus_coder.Base.{List, [], ◌∷◌, ◌++◌, if◌then◌else◌, Text, elem}

dedupe_loop : List Text → List Text → List Text → List Text
dedupe_loop seen out [] = out
dedupe_loop seen out (v ∷ values) =
    let skip = dedupe_loop seen out values in
    let keep = dedupe_loop (v ∷ seen) (out ++ v ∷ []) values in if elem v seen then skip else keep

unfoldable pub dedupe_strings : List Text → List Text
unfolding dedupe_loop
dedupe_strings values = dedupe_loop [] [] values
