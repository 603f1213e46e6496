-- ===== src/Tools/Validator/NotNil.antt =====
-- The tests of a tool call follow no nil pointer where the registry holds a filesystem tool.
use animus_coder.Base.{
  ◌≡◌, inl, inr, String, Bool, true, not, Option, none, some, List, [], ◌∷◌, arith, if◌then◌else◌,
  is_some, Bool-cases, Option-cases, Text, codes, lookup,
}
use animus_coder.Tools.Value.{Value, Args, string_of, number_of}
use animus_coder.Tools.Git.{GitTool}
use animus_coder.Tools.Schema.{ToolRegistry, Schema, SchemaField, schema}
use animus_coder.Tools.Validator.{
  CallError, nil_filesystem, missing, not_of_kind, not_allowed_value, write_disabled, exec_disabled,
  git_disabled, no_semantic, ◌then_check◌, fail_if, need_string, fits_kind, fits_enum, check_field,
  validate_fields, validate_schema, git_test, write_test, exec_test, if_there, check_tool,
  validate_call,
}

abbrev pub NotNil : Option CallError → Type 0
NotNil (some nil_filesystem) = ⊥
NotNil _ = Unit {0}

then_check-NotNil : (a b : Option CallError) → NotNil a → NotNil b → NotNil (a then_check b)
then_check-NotNil none b h k = k
then_check-NotNil (some e) b h k = h

if-NotNil :
    (test : Bool) (a b : Option CallError) → NotNil a → NotNil b → NotNil (if test then a else b)
if-NotNil test a b h k = elim (Bool-cases test) [ inl e ↦ rw e h | inr e ↦ rw e k ]

fail_if-NotNil : (test : Bool) (e : CallError) → NotNil (some e) → NotNil (fail_if test e)
fail_if-NotNil test e h = if-NotNil test (some e) none h tt

need_string-NotNil : (name : Text) (args : Args) → NotNil (need_string name args)
need_string-NotNil name args =
    fail_if-NotNil (not (is_some (string_of (lookup name args))))
      (not_of_kind name (codes "string")) tt

check_field-NotNil : (f : SchemaField) (v : Option Value) → NotNil (check_field f v)
unfolding check_field
check_field-NotNil f none = fail_if-NotNil f.required (missing f.name) tt
check_field-NotNil f (some v) =
    let kind = not_of_kind f.name f.kind in
    let value = not_allowed_value f.name f.enum in
    then_check-NotNil (fail_if (not (fits_kind f.kind v)) kind)
      (fail_if (not (fits_enum f.enum v)) value) (fail_if-NotNil (not (fits_kind f.kind v)) kind tt)
      (fail_if-NotNil (not (fits_enum f.enum v)) value tt)

validate_fields-NotNil : (fs : List SchemaField) (args : Args) → NotNil (validate_fields fs args)
unfolding validate_fields
validate_fields-NotNil [] args = tt
validate_fields-NotNil (f ∷ fs) args =
    then_check-NotNil (check_field f (lookup f.name args)) (validate_fields fs args)
      (check_field-NotNil f (lookup f.name args)) (validate_fields-NotNil fs args)

validate_schema-NotNil : (s : Option Schema) (args : Args) → NotNil (validate_schema s args)
unfolding validate_schema
validate_schema-NotNil none args = tt
validate_schema-NotNil (some s) args = validate_fields-NotNil s.parameters args

if_there-NotNil :
    (name : Text) (kind : String) (fits : Option Value → Bool) (args : Args)
    → NotNil (if_there name kind fits args)
if_there-NotNil name kind fits args = elim (Option-cases (lookup name args)) [
  | inl e ↦ rw (e, NotNil) tt
  | inr (v, e) ↦
      rw (e, NotNil) (fail_if-NotNil (not (fits (some v))) (not_of_kind name (codes kind)) tt)
]

ruleset not_nil =
    (if-NotNil, then_check-NotNil, fail_if-NotNil, need_string-NotNil, if_there-NotNil)

module _ (reg : ToolRegistry) (there : is_some reg.fs ≡ true) where
  write_test-NotNil : NotNil (write_test reg)
  write_test-NotNil = elim (Option-cases reg.fs) [
    | inl e ↦ absurd (ground arith)
    | inr (fs, e) ↦ rw e (fail_if-NotNil (not fs.allow_write) write_disabled tt)
  ]

  exec_test-NotNil : NotNil (exec_test reg)
  exec_test-NotNil = elim (Option-cases reg.terminal) [
    | inl e ↦ rw e tt
    | inr (t, e) ↦ rw e (fail_if-NotNil (not t.allow_execution) exec_disabled tt)
  ]

  git_test-NotNil :
      (next : GitTool → Option CallError)
      → ((g : GitTool) → NotNil (next g))
      → NotNil (git_test reg next)
  git_test-NotNil next h = elim (Option-cases reg.git) [
    | inl e ↦ rw e tt
    | inr (g, e) ↦ rw e (
        then_check-NotNil (fail_if (not g.allow_exec) git_disabled) (next g)
          (fail_if-NotNil (not g.allow_exec) git_disabled tt) (h g))
  ]

  query_test-NotNil :
      (args : Args)
      → NotNil (elim reg.semantic [
        | none ↦ some no_semantic
        | some engine ↦
            need_string (codes "query") args
            then_check if_there (codes "limit") "number" (λ v. is_some (number_of v)) args
      ])
  query_test-NotNil args = elim (Option-cases reg.semantic) [
    | inl e ↦ rw e tt
    | inr (x, e) ↦
        let limit = if_there (codes "limit") "number" (λ v. is_some (number_of v)) args in
        rw e (
          then_check-NotNil (need_string (codes "query") args) limit
            (need_string-NotNil (codes "query") args)
            (if_there-NotNil (codes "limit") "number" (λ v. is_some (number_of v)) args))
  ]

  check_tool-NotNil : (name : Text) (args : Args) → NotNil (check_tool reg name args)
  unfolding check_tool
  check_tool-NotNil name args =
      search (not_nil, write_test-NotNil, exec_test-NotNil, git_test-NotNil, query_test-NotNil args)
        depth 14

  pub validate_call-NotNil :
      (name : Text) (args : Args) → NotNil (validate_call (some reg) name args)
  unfolding validate_call
  validate_call-NotNil name args =
      then_check-NotNil (validate_schema (schema reg name) args) (check_tool reg name args)
        (validate_schema-NotNil (schema reg name) args) (check_tool-NotNil name args)
