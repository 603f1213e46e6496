-- ===== src/Runner/Execute/Tests.antt =====
-- Checks of `executeTool` on a concrete disk.
use animus_coder.Base.{
  ◌≡◌, refl, true, false, none, some, [], ◌∷◌, ◌++◌, codes, text_eq, has_prefix, contains, lookup,
  show_nat,
}
use animus_coder.Tools.Disk.{Node, file, folder, entry, done}
use animus_coder.Tools.Filesystem.{Filesystem}
use animus_coder.Tools.Terminal.{Finished}
use animus_coder.Tools.Value.{string}
use animus_coder.Runner.Events.{ToolCall}
use animus_coder.Runner.Outcome.{returned, refused, panics, context_done}
use animus_coder.Runner.Execute.{ToolState, Outside, execute_tool}
use animus_coder.Runner.Execute.Switches.{IsFrozen, SwitchedOff, SwitchedOff-IsHarmless}
use animus_coder.Runner.Execute.ReadOnly.{execute_tool-IsFrozen}

abbrev still : {A : Type 0} → A → Finished × A
still a = (record { stdout = []; stderr = []; error = none }, a)

abbrev outside : Outside
outside = record {
  run = λ ctx dir command args disk. still disk;
  git = λ args dir input disk. still disk;
  format = record { marshal = λ stack. []; unmarshal = λ text. none };
  now = λ n. n;
  two_digits = λ n d. show_nat n;
}

abbrev tool : Filesystem
tool = record { guard = record { base_dir = codes "/w" }; allow_write = false; allow_read = true }

abbrev disk : Node
disk = folder (entry (codes "w") (folder (entry (codes "f") (file (codes "x y")) done)) done)

abbrev state : ToolState
state = record {
  registry = some (record { fs = some tool; terminal = none; git = none; semantic = none });
  disk = disk;
  readings = 0;
}

abbrev bare : ToolState
bare = record state {
  registry = some (record { fs = none; terminal = none; git = none; semantic = none });
}

abbrev reading : ToolCall
reading = record { name = codes "fs.read_file"; args = (codes "path", string (codes "f")) ∷ [] }

abbrev searching : ToolCall
searching = record {
  name = codes "fs.search";
  args = (codes "root", string (codes ".")) ∷ (codes "pattern", string (codes "y")) ∷ [];
}

read : (execute_tool outside none false reading state).0 ≡ returned (codes "x y")
unfolding execute_tool animus_coder.Tools.Validator.validate_call
    animus_coder.Tools.Validator.validate_schema animus_coder.Tools.Schema.schema
    animus_coder.Tools.Schema.schema_named animus_coder.Tools.Schema.schemas text_eq
    animus_coder.Tools.Validator.validate_fields animus_coder.Tools.Validator.check_field lookup
    animus_coder.Tools.Validator.fits_kind animus_coder.Tools.Validator.check_tool
    animus_coder.Runner.Execute.tool_named animus_coder.Runner.Execute.perform
    animus_coder.Tools.Filesystem.read_file animus_coder.Tools.Filesystem.resolved
    animus_coder.Tools.Path.resolve animus_coder.Tools.Path.is_abs animus_coder.Tools.Path.clean
    animus_coder.Tools.Path.render animus_coder.Tools.Path.clean_parts
    animus_coder.Tools.Path.split_from animus_coder.Tools.Path.clean_step
    animus_coder.Tools.Path.dot animus_coder.Tools.Path.dot_dot has_prefix
    animus_coder.Tools.Path.join_path animus_coder.Tools.Path.slashed animus_coder.Tools.Disk.read
    animus_coder.Tools.Disk.find animus_coder.Tools.Disk.parts_of animus_coder.Tools.Disk.find_entry
read = refl

searched :
    (execute_tool outside none false searching state).0 ≡ returned (codes "f:1 x y" ++ 10 ∷ [])
unfolding execute_tool animus_coder.Tools.Validator.validate_call
    animus_coder.Tools.Validator.validate_schema animus_coder.Tools.Schema.schema
    animus_coder.Tools.Schema.schema_named animus_coder.Tools.Schema.schemas text_eq
    animus_coder.Tools.Validator.check_tool lookup animus_coder.Runner.Execute.tool_named
    animus_coder.Runner.Execute.perform animus_coder.Tools.Filesystem.Search.search_files
    animus_coder.Tools.Filesystem.resolved animus_coder.Tools.Path.resolve
    animus_coder.Tools.Path.is_abs animus_coder.Tools.Path.clean animus_coder.Tools.Path.render
    animus_coder.Tools.Path.clean_parts animus_coder.Tools.Path.split_from
    animus_coder.Tools.Path.clean_step animus_coder.Tools.Path.dot has_prefix
    animus_coder.Tools.Path.join_path animus_coder.Tools.Path.dot_dot
    animus_coder.Tools.Path.slashed animus_coder.Tools.Filesystem.Walks.walk_dir
    animus_coder.Tools.Disk.find animus_coder.Tools.Disk.parts_of animus_coder.Tools.Disk.find_entry
    animus_coder.Tools.Walk.ended animus_coder.Tools.Walk.walk_node
    animus_coder.Tools.Walk.sort_node animus_coder.Tools.Filesystem.Search.search_node
    animus_coder.Tools.Walk.insert_entry contains animus_coder.Runner.Outcome.show_results
    animus_coder.Tools.Walk.rel show_nat
searched = refl

cancelled : (execute_tool outside none true reading state).0 ≡ refused [] context_done
unfolding execute_tool
cancelled = refl

-- A registry without a filesystem tool.
nil_followed : (execute_tool outside none false reading bare).0 ≡ panics
unfolding execute_tool animus_coder.Tools.Validator.validate_call
    animus_coder.Tools.Validator.validate_schema animus_coder.Tools.Schema.schema
    animus_coder.Tools.Schema.schema_named animus_coder.Tools.Schema.schemas text_eq
    animus_coder.Tools.Validator.validate_fields animus_coder.Tools.Validator.check_field lookup
    animus_coder.Tools.Validator.fits_kind animus_coder.Tools.Validator.check_tool
    animus_coder.Runner.Execute.tool_named animus_coder.Runner.Execute.perform
nil_followed = refl

call-IsFrozen :
    IsFrozen (λ d. d) SwitchedOff disk (execute_tool outside none false searching state).1
call-IsFrozen =
    execute_tool-IsFrozen outside none false searching (λ d. d) SwitchedOff
      (SwitchedOff-IsHarmless outside.git outside.format) disk state
      (record { same = refl; safe = record { no_writes = refl; no_commands = tt; no_git = tt } })
