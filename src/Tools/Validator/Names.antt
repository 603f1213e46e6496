-- ===== src/Tools/Validator/Names.antt =====
-- The names that `ValidateCall` knows.
use animus_coder.Base.{
  ◌≡◌, inl, inr, true, none, some, arith, Bool-cases, Text, codes, text_eq, text_eq_iff,
}
use animus_coder.Tools.Value.{Args}
use animus_coder.Tools.Schema.{ToolRegistry}
use animus_coder.Tools.Validator.{check_tool, validate_call}
use animus_coder.Tools.Validator.Allowed.{
  Tool, read_file, write_file, search_text, execute, apply_patch, git_status, restore_backup,
  list_backups, preview_backup, search_meaning, name_of,
}

found :
    (name : Text) (tool : Tool)
    → text_eq name (name_of tool) ≡ true
    → (tool : Tool) × (name ≡ name_of tool)
found name tool e = (tool, (text_eq_iff name (name_of tool)).0 e)

-- A call that `validate_call` accepts has the name of one of the ten tools.
pub validate_call-known :
    (reg : ToolRegistry) (name : Text) (args : Args)
    → validate_call (some reg) name args ≡ none
    → (tool : Tool) × (name ≡ name_of tool)
unfolding validate_call check_tool
validate_call-known reg name args h = elim (Bool-cases (text_eq name (codes "fs.read_file"))) [
  | inl e ↦ found name read_file e
  | inr e0 ↦ elim (Bool-cases (text_eq name (codes "fs.write_file"))) [
    | inl e ↦ found name write_file e
    | inr e1 ↦ elim (Bool-cases (text_eq name (codes "fs.search"))) [
      | inl e ↦ found name search_text e
      | inr e2 ↦ elim (Bool-cases (text_eq name (codes "terminal.exec"))) [
        | inl e ↦ found name execute e
        | inr e3 ↦ elim (Bool-cases (text_eq name (codes "git.apply_patch"))) [
          | inl e ↦ found name apply_patch e
          | inr e4 ↦ elim (Bool-cases (text_eq name (codes "git.status"))) [
            | inl e ↦ found name git_status e
            | inr e5 ↦ elim (Bool-cases (text_eq name (codes "git.restore_backup"))) [
              | inl e ↦ found name restore_backup e
              | inr e6 ↦ elim (Bool-cases (text_eq name (codes "git.list_backups"))) [
                | inl e ↦ found name list_backups e
                | inr e7 ↦ elim (Bool-cases (text_eq name (codes "git.preview_backup"))) [
                  | inl e ↦ found name preview_backup e
                  | inr e8 ↦ elim (Bool-cases (text_eq name (codes "semantic.search"))) [
                    | inl e ↦ found name search_meaning e
                    | inr e9 ↦ absurd (ground arith)
                  ]
                ]
              ]
            ]
          ]
        ]
      ]
    ]
  ]
]
