-- ===== src/Runner/TestOutput/Tests.antt =====
-- A check of `parseTestOutput` on a concrete output.
use animus_coder.Base.{
  ◌++◌, ◌≡◌, refl, ◌↔◌, some, [], ◌∷◌, Among, IsDistinct, Text, codes, text_eq, trim_space, elem,
  join, ok,
}
use animus_coder.Runner.TestOutput.{long_s, find_name, lines_from, parse_test_output}
use animus_coder.Runner.TestOutput.Report.{IsTestName, parse_test_output-IsReport}

-- Two lines that name a failure, one of them twice.
abbrev output : Text
output = codes "ok a\n--- Fail: b/c_test (0s)\nERROR  d.e\nFAIL b/c_test"

reported :
    parse_test_output output
    ≡ (codes "Failing tests: b/c_test, d.e", codes "b/c_test" ∷ codes "d.e" ∷ [])
unfolding parse_test_output animus_coder.Runner.TestOutput.names_in
    animus_coder.Tools.Dedupe.dedupe_strings lines_from find_name
    animus_coder.Runner.TestOutput.match_here animus_coder.Runner.TestOutput.whole_name
    animus_coder.Base.lower_byte animus_coder.Runner.TestOutput.is_re_space text_eq
    animus_coder.Runner.TestOutput.name_prefix animus_coder.Runner.TestOutput.is_name_byte join elem
    trim_space animus_coder.Runner.TestOutput.is_name_letter
    animus_coder.Runner.TestOutput.begins_letter
reported = refl

-- "FAIL teſt" with the long s.
folded :
    find_name (codes "FAIL te" ++ long_s ++ codes "t (0s)")
    ≡ some (codes "te" ++ long_s ++ codes "t")
unfolding find_name animus_coder.Runner.TestOutput.match_here
    animus_coder.Runner.TestOutput.whole_name animus_coder.Base.lower_byte
    animus_coder.Runner.TestOutput.is_re_space text_eq animus_coder.Runner.TestOutput.name_prefix
    animus_coder.Runner.TestOutput.is_name_letter animus_coder.Runner.TestOutput.is_name_byte
    animus_coder.Runner.TestOutput.begins_letter
folded = refl

parse_test_output-IsReport_example :
    let (summary, failing) = parse_test_output output in
    IsDistinct failing
    × ((name : Text)
        → Among name failing
          ↔ ((line : Text) × Among line (lines_from [] output) × (find_name line ≡ some name)))
    × ((name : Text) → Among name failing → IsTestName name)
    × ((summary ≡ []) ↔ (failing ≡ []))
parse_test_output-IsReport_example = parse_test_output-IsReport output
