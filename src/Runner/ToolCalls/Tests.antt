-- ===== src/Runner/ToolCalls/Tests.antt =====
-- Checks of `extractToolCalls` at concrete contents.
use animus_coder.Base.{
  ◌+◌, ◌≡◌, refl, true, Option, none, some, [], ◌∷◌, ◌==◌, if◌then◌else◌, is_some, Text, codes,
  text_eq, trim_space, has_prefix, contains,
}
use animus_coder.Runner.Events.{ToolCall}
use animus_coder.Runner.ToolCalls.{index_of, drop, fence, json_fence, Decoder, extract_tool_calls}
use animus_coder.Runner.ToolCalls.Fenced.{extract_tool_calls-fenced}

abbrev status : ToolCall
status = record { name = codes "git.status"; args = [] }

-- A decoder that takes any text in braces for this call.
abbrev decode : Text → Option ToolCall
decode [] = none
decode (c ∷ s) = if c == b'{' then some status else none

abbrev decoder : Decoder
decoder = record { calls = λ s. none; single = decode }

abbrev marked : Text
marked = codes "```json\n{}\n```"

abbrev unmarked : Text
unmarked = codes "```\n{}\n```"

unmarked_found : extract_tool_calls decoder unmarked ≡ status ∷ []
unfolding extract_tool_calls text_eq trim_space has_prefix animus_coder.Runner.ToolCalls.unfenced
    contains fence index_of json_fence drop
unmarked_found = refl

marked_fenced : contains (trim_space marked) fence ≡ true
unfolding contains trim_space fence
marked_fenced = refl

marked_at : index_of json_fence (trim_space marked) ≡ some 0
unfolding index_of trim_space has_prefix json_fence
marked_at = refl

marked_closed : is_some (index_of fence (drop (0 + 3) (trim_space marked))) ≡ true
unfolding index_of drop trim_space has_prefix fence
marked_closed = refl

extract_tool_calls-fenced_example : extract_tool_calls decoder marked ≡ []
extract_tool_calls-fenced_example =
    extract_tool_calls-fenced decoder marked 0 (λ s. refl) marked_fenced marked_at marked_closed
