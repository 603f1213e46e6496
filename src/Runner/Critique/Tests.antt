-- ===== src/Runner/Critique/Tests.antt =====
-- Checks of internal/rpc/agent/runner.go, critiques, at concrete inputs.
use animus_coder.Base.{
  ◌≡◌, refl, ◌↔◌, ◌⊎◌, true, false, Option, some, [], ◌∷◌, Text, codes, text_eq, trim_space,
  is_blank, to_lower, elem, lookup,
}
use animus_coder.Config.Validate.{known_policy}
use animus_coder.Tools.Value.{string, Args}
use animus_coder.Runner.Critique.{parse_critique, critique_blocks_apply, should_block_on_critique}
use animus_coder.Runner.Critique.Blocks.{
  AsksToBlock, critique_blocks_apply_iff, should_block_on_critique_iff,
}

-- A decoder for one text.
abbrev decode : Text → Option Args
decode raw = some ((codes "block_apply", string raw) ∷ [])

blocking_critique : (critique_blocks_apply (parse_critique decode (codes "TRUE")) ≡ true) ↔ (
    (is_blank (codes "TRUE") ≡ false)
    × ((crit : Args) × (decode (codes "TRUE") ≡ some crit)
        × AsksToBlock (lookup (codes "block_apply") crit)))
blocking_critique = critique_blocks_apply_iff decode (codes "TRUE")

true_blocks : critique_blocks_apply (parse_critique decode (codes "TRUE")) ≡ true
unfolding critique_blocks_apply parse_critique is_blank animus_coder.Runner.Critique.blocks_value
    lookup text_eq to_lower
true_blocks = refl

block_known : known_policy (codes " Block_On_Critical") ≡ true
unfolding known_policy elem text_eq to_lower trim_space
block_known = refl

blocking_policy : (should_block_on_critique (codes " Block_On_Critical") ≡ true) ↔ (
    (to_lower (trim_space (codes " Block_On_Critical")) ≡ [])
    ⊎ (to_lower (trim_space (codes " Block_On_Critical")) ≡ codes "block_on_critical"))
blocking_policy = should_block_on_critique_iff (codes " Block_On_Critical") block_known
