-- ===== src/Runner/Critique.antt =====
-- internal/rpc/agent/runner.go: when a response ends a run, and what the critique of it decides. The
-- decoding of a JSON object is an argument.
pub mod Blocks
mod Tests
use animus_coder.Base.{
  Bool, true, false, ◌&&◌, ◌||◌, not, Option, none, some, [], ◌∷◌, ◌++◌, if◌then◌else◌, length,
  Text, codes, text_eq, trim_space, is_blank, to_lower, contains, lookup, has_suffix, ok,
}
use animus_coder.Agent.Types.{Response}
use animus_coder.Tools.Value.{Value, boolean, string, Args}

unfoldable pub is_response_done : Response → Bool
is_response_done resp =
    let content = to_lower resp.message.content in
    if not (text_eq resp.finish_reason []) && not (text_eq resp.finish_reason (codes "length"))
    then true
    else contains content (codes "[done]") || contains content (codes "<done>")

unfoldable pub parse_critique : (Text → Option Args) → Text → Option Args
parse_critique unmarshal raw = if is_blank raw then none else unmarshal raw

-- The `switch` over the type of the entry.
unfoldable pub blocks_value : Option Value → Bool
blocks_value (some (boolean b)) = b
blocks_value (some (string s)) = text_eq (to_lower s) (codes "true")
blocks_value _ = false

unfoldable pub critique_blocks_apply : Option Args → Bool
critique_blocks_apply none = false
critique_blocks_apply (some crit) = blocks_value (lookup (codes "block_apply") crit)

unfoldable pub should_block_on_critique : Text → Bool
should_block_on_critique policy =
    let p = to_lower (trim_space policy) in
    if text_eq p (codes "never_block")
    then false
    else if text_eq p (codes "warn_only")
    then false
    else true

abbrev pub newline : Text
newline = b'\n' ∷ []

unfoldable pub compute_self_diff : Text → Text → Text
compute_self_diff prev current =
    if is_blank prev || is_blank current
    then []
    else codes "Previous:\n"
      ++ prev
      ++ (if has_suffix prev newline then [] else newline)
      ++ codes "Current:\n"
      ++ current
