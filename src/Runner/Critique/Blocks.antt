-- ===== src/Runner/Critique/Blocks.antt =====
-- When a critique halts a run.
use animus_coder.Base.{
  ◌≡◌, refl, ◌↔◌, ◌⊎◌, inl, inr, true, false, Option, none, some, [], arith, Bool-cases,
  Option-cases, Text, codes, text_eq, text_eq_iff, trim_space, is_blank, to_lower, elem, lookup,
}
use animus_coder.Config.Validate.{known_policy}
use animus_coder.Tools.Value.{Value, null, boolean, number, string, array, object, Args}
use animus_coder.Runner.Critique.{
  parse_critique, blocks_value, critique_blocks_apply, should_block_on_critique,
}

-- The entry that asks to block: true, or a text that spells it in any case of letters.
abbrev pub AsksToBlock : Option Value → Type 0
AsksToBlock v =
    (v ≡ some (boolean true)) ⊎ ((s : Text) × (v ≡ some (string s)) × (to_lower s ≡ codes "true"))

blocks_value_iff : (v : Option Value) → (blocks_value v ≡ true) ↔ AsksToBlock v
unfolding blocks_value
blocks_value_iff none =
    (λ h. absurd (cc h), λ h. elim h [ inl e ↦ absurd (cc e) | inr (s, e, l) ↦ absurd (cc e) ])
blocks_value_iff (some (boolean b)) =
    (λ h. inl (cc h), λ h. elim h [ inl e ↦ cc e | inr (s, e, l) ↦ absurd (cc e) ])
blocks_value_iff (some (string s)) = (
  λ h. inr (s, refl, (text_eq_iff (to_lower s) (codes "true")).0 h),
  λ h. elim h [
    | inl e ↦ absurd (cc e)
    | inr (t, e, l) ↦ (text_eq_iff (to_lower s) (codes "true")).1 (ground arith)
  ],
)
blocks_value_iff (some null) =
    (λ h. absurd (cc h), λ h. elim h [ inl e ↦ absurd (cc e) | inr (s, e, l) ↦ absurd (cc e) ])
blocks_value_iff (some (number n)) =
    (λ h. absurd (cc h), λ h. elim h [ inl e ↦ absurd (cc e) | inr (s, e, l) ↦ absurd (cc e) ])
blocks_value_iff (some (array vs)) =
    (λ h. absurd (cc h), λ h. elim h [ inl e ↦ absurd (cc e) | inr (s, e, l) ↦ absurd (cc e) ])
blocks_value_iff (some (object ms)) =
    (λ h. absurd (cc h), λ h. elim h [ inl e ↦ absurd (cc e) | inr (s, e, l) ↦ absurd (cc e) ])

-- A critique asks to halt the run exactly when it is not blank, is decoded as an object, and the
-- object's `block_apply` asks to block.
pub critique_blocks_apply_iff :
    (unmarshal : Text → Option Args) (raw : Text)
    → (critique_blocks_apply (parse_critique unmarshal raw) ≡ true) ↔ (
        (is_blank raw ≡ false)
        × ((crit : Args) × (unmarshal raw ≡ some crit)
            × AsksToBlock (lookup (codes "block_apply") crit)))
unfolding critique_blocks_apply parse_critique
critique_blocks_apply_iff unmarshal raw = (
  λ h. elim (Bool-cases (is_blank raw)) [
    | inl e ↦ absurd (ground arith)
    | inr e ↦ elim (Option-cases (unmarshal raw)) [
      | inl q ↦ absurd (ground arith)
      | inr (crit, q) ↦
          (e, (crit, q, (blocks_value_iff (lookup (codes "block_apply") crit)).0 (ground arith)))
    ]
  ],
  λ (e, (crit, q, a)).
      let b = (blocks_value_iff (lookup (codes "block_apply") crit)).1 a in ground arith,
)

-- Under a policy that the validation of the settings accepts, a critique halts the run exactly when
-- the policy is empty or is the one that blocks.
pub should_block_on_critique_iff :
    (policy : Text)
    → known_policy policy ≡ true
    → (should_block_on_critique policy ≡ true) ↔ (
        (to_lower (trim_space policy) ≡ [])
        ⊎ (to_lower (trim_space policy) ≡ codes "block_on_critical"))
unfolding known_policy should_block_on_critique elem
should_block_on_critique_iff policy k =
    let p = to_lower (trim_space policy) in
    (
      λ h. elim (Bool-cases (text_eq p [])) [
        | inl e ↦ inl ((text_eq_iff p []).0 e)
        | inr e ↦ inr ((text_eq_iff p (codes "block_on_critical")).0 (ground arith))
      ],
      λ h. elim h [ inl e ↦ rw e (unfold text_eq in refl) | inr e ↦ rw e (unfold text_eq in refl) ],
    )
