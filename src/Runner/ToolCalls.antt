-- ===== src/Runner/ToolCalls.antt =====
-- internal/rpc/agent/runner.go: `extractToolCalls`. The decoding of JSON as a list of calls or as one
-- call is an argument.
pub mod Fenced
mod Tests
use animus_coder.Base.{
  ℕ, zero, suc, ◌+◌, Option, none, some, List, [], ◌∷◌, if◌then◌else◌, take, Text, codes, text_eq,
  trim_space, has_prefix, contains,
}
use mathlib.Core.Option
use animus_coder.Runner.Events.{ToolCall}

-- strings.Index(s, sub)
unfoldable pub index_of : Text → Text → Option ℕ
index_of sub [] = if has_prefix [] sub then some 0 else none
index_of sub (c ∷ s) =
    let later = Option.map suc (index_of sub s) in if has_prefix (c ∷ s) sub then some 0 else later

-- s[n:]
unfoldable pub drop : ℕ → Text → Text
drop zero s = s
drop (suc n) [] = []
drop (suc n) (c ∷ s) = drop n s

unfoldable pub fence : Text
fence = codes "```"

unfoldable pub json_fence : Text
json_fence = codes "```json"

-- json.Unmarshal; `none` is its error.
pub record Decoder : Type 0 where
  pub calls : Text → Option (List ToolCall)
  pub single : Text → Option ToolCall

-- The content between the start of a fence and the next one.
cut_fence : Text → ℕ → Text
cut_fence content start =
    let rest = drop (start + 3) content in
    elim (index_of fence rest) [ none ↦ content | some end ↦ trim_space (take end rest) ]

cut_at : Text → Option ℕ → Text
unfolding cut_fence
cut_at content none = content
cut_at content (some start) = cut_fence content start

first_of : Option ℕ → Option ℕ → Option ℕ
first_of none other = other
first_of (some n) other = some n

unfoldable pub unfenced : Text → Text
unfolding cut_at first_of
unfenced content =
    if contains content fence
    then cut_at content (first_of (index_of json_fence content) (index_of fence content))
    else content

named_call : Option ToolCall → List ToolCall
named_call none = []
named_call (some call) = if text_eq call.name [] then [] else call ∷ []

decoded_calls : Decoder → Text → List ToolCall
unfolding named_call
decoded_calls decoder content =
    let single = named_call (decoder.single content) in
    if has_prefix content (codes "[")
    then elim (decoder.calls content) [ some calls ↦ calls | none ↦ single ]
    else single

unfoldable pub extract_tool_calls : Decoder → Text → List ToolCall
unfolding decoded_calls
extract_tool_calls decoder content =
    let trimmed = trim_space content in
    if text_eq trimmed [] then [] else decoded_calls decoder (unfenced trimmed)
