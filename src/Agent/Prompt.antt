-- ===== src/Agent/Prompt.antt =====
-- internal/agent/prompt.go: the texts that the agent sends.
use animus_coder.Base.{
  ℕ, ◌||◌, Option, none, some, List, [], ◌∷◌, ◌++◌, leb, ◌==◌, if◌then◌else◌, length, take, Text,
  codes, text_eq, trim_space, is_blank, show_nat, show_int, join, has_suffix,
}
use animus_coder.Agent.Types.{ContextFile, ToolObservation, TestObservation, ReflectionContext}

unfoldable pub system_prompt : Text
system_prompt =
    codes
      "You are MyCodex, a coding agent. Follow user instructions precisely, prefer minimal changes, and ask before destructive actions. Be concise in answers."

unfoldable pub plan_system_prompt : Text
plan_system_prompt =
    codes
      "You are MyCodex planning assistant. Draft a concise numbered plan (3-7 steps) to solve the user's task. Plans should include inspections, edits, validations, and tests when relevant. Do not execute actions; only outline the plan."

unfoldable pub reflect_system_prompt : Text
reflect_system_prompt =
    codes
      "You are MyCodex reflection assistant. Briefly assess the last assistant response for issues, risks, or missing checks. Return a JSON object matching:\n{\"quality\":\"good|ok|poor\",\"issues\":[\"...\"],\"recommendations\":[\"...\"],\"block_apply\":true|false,\"notes\":\"optional free-text\"}\nBe concise in text fields. Prefer block_apply=true only when you see critical risks."

newline : Text
newline = codes "\n"

-- The text, ended by a line break if it does not end in one.
unfoldable pub ended_line : Text → Text
unfolding newline
ended_line s = if has_suffix s newline then s else s ++ newline

-- What the loop writes for one file.
unfoldable pub file_block : ContextFile → Text
unfolding ended_line
file_block f = codes "File: " ++ (f.path ++ (newline ++ (ended_line f.content ++ codes "---\n")))

file_blocks : List ContextFile → Text
unfolding file_block
file_blocks [] = []
file_blocks (f ∷ fs) = file_block f ++ file_blocks fs

unfoldable pub build_user_prompt : Text → List ContextFile → Text
unfolding file_blocks newline
build_user_prompt prompt [] = prompt
build_user_prompt prompt (f ∷ fs) = prompt ++ (codes "\n\nContext:\n" ++ file_blocks (f ∷ fs))

unfoldable pub build_plan_user_prompt : Text → Text
build_plan_user_prompt prompt =
    codes "Task:\n" ++ (prompt ++ codes "\n\nReturn only the numbered plan.")

-- `text[:limit]` counts bytes.
unfoldable pub truncate_for_prompt : Text → ℕ → Text
truncate_for_prompt text limit =
    if limit == 0 || leb (length text) limit
    then text
    else take limit text ++ codes "... [truncated]"

or_text : Text → Text → Text
or_text s t = if text_eq s [] then t else s

-- One line for each tool result.
unfoldable pub tool_line : ToolObservation → Text
unfolding or_text newline
tool_line t =
    let summary = truncate_for_prompt (or_text t.output t.error) 800 in
    codes "- " ++ (t.name ++ (codes ": " ++ (or_text summary (codes "(no output)") ++ newline)))

tool_lines : List ToolObservation → Text
tool_lines [] = []
tool_lines (t ∷ ts) = tool_line t ++ tool_lines ts

tool_block : List ToolObservation → Text
tool_block [] = []
tool_block (t ∷ ts) = codes "\nTool results:\n" ++ tool_lines (t ∷ ts)

unless_blank : Text → Text → Text
unless_blank s block = if is_blank s then [] else block

failing_line : List Text → Text
failing_line [] = []
failing_line (t ∷ ts) = codes "Failing tests: " ++ (join (t ∷ ts) (codes ", ") ++ newline)

test_block : Option TestObservation → Text
test_block none = []
test_block (some t) =
    let cmd = or_text (trim_space t.command) (codes "tests") in
    let output = truncate_for_prompt t.output 1200 in
    codes "\nTest run ("
    ++ (cmd
        ++ (codes ") exit="
            ++ (show_int t.exit_code
                ++ (codes " attempts="
                    ++ (show_nat t.attempts
                        ++ (codes ":\n"
                            ++ (failing_line t.failing
                                ++ (unless_blank t.summary
                                      (codes "Summary: " ++ (t.summary ++ newline))
                                    ++ (unless_blank output (output ++ newline)
                                        ++ unless_blank t.error (
                                            codes "Error: "
                                            ++ (truncate_for_prompt t.error 400
                                                ++ newline)))))))))))

unfoldable pub build_reflect_user_prompt : Text → Text → Text → ReflectionContext → Text
unfolding newline or_text tool_line tool_block tool_lines test_block unless_blank failing_line
build_reflect_user_prompt prompt last_response plan ctx =
    codes "Task:\n"
    ++ (prompt
        ++ (codes "\n\nLast response:\n"
            ++ (last_response
                ++ (newline
                    ++ (unless_blank plan (codes "\nPlanned steps:\n" ++ (plan ++ newline))
                        ++ (unless_blank ctx.self_diff (
                              codes "\nSelf-diff (last vs current response):\n"
                              ++ (truncate_for_prompt ctx.self_diff 2000 ++ newline))
                            ++ (tool_block ctx.tools
                                ++ (test_block ctx.test
                                    ++ codes "\nReturn only the JSON critique."))))))))
