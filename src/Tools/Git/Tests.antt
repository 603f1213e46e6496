-- ===== src/Tools/Git/Tests.antt =====
-- Checks of the git tool at concrete inputs.
use animus_coder.Base.{
  ℕ, zero, suc, ◌≡◌, refl, ap, true, false, Option, none, some, List, [], ◌∷◌, ◌++◌, arith, length,
  take, Text, codes, text_eq, show_nat, ok,
}
use animus_coder.Tools.Disk.{Node, folder, done, read, find, find_entry}
use animus_coder.Tools.PatchStack.{PatchEntry, PatchStack, StackFormat}
use animus_coder.Tools.Git.{
  list_backups, GitTool, GitProcess, folder_name, backup_path, entry_id, run_with_input,
  create_backup, apply_patch, restore_backup,
}
use animus_coder.Tools.Git.Lineage.{IsLinked, create_backup-IsLinked}
use animus_coder.Tools.Git.Restore.{restore_backup-apply_patch}
use animus_coder.Tools.Git.Listing.{ids_of, list_backups-create_backup}

-- A text behind its length, and the text of the given length in front of a rest.
abbrev sized : Text → Text → Text
sized t rest = length t ∷ (t ++ rest)

abbrev drop : ℕ → Text → Text
drop zero s = s
drop (suc n) [] = []
drop (suc n) (c ∷ s) = drop n s

take-sized : (t rest : Text) → take (length t) (t ++ rest) ≡ t
take-sized [] rest = refl
take-sized (c ∷ t) rest = ap (λ s. c ∷ s) (take-sized t rest)

drop-sized : (t rest : Text) → drop (length t) (t ++ rest) ≡ rest
drop-sized [] rest = refl
drop-sized (c ∷ t) rest = drop-sized t rest

abbrev cut : Text → Text × Text
cut [] = ([], [])
cut (n ∷ s) = (take n s, drop n s)

cut-sized : (t rest : Text) → cut (sized t rest) ≡ (t, rest)
cut-sized t rest = ground (arith, take-sized t rest, drop-sized t rest)

-- A form of the stack that is read back.
abbrev encode : PatchStack → Text
encode [] = []
encode (e ∷ es) = sized e.id (sized e.parent_id (sized e.file_name (e.created_at ∷ encode es)))

abbrev timed : Text → Text → Text → Text → PatchEntry × Text
timed id parent_id file_name [] =
    (record { id = id; parent_id = parent_id; file_name = file_name; created_at = 0 }, [])
timed id parent_id file_name (t ∷ s) =
    (record { id = id; parent_id = parent_id; file_name = file_name; created_at = t }, s)

abbrev cut_entry : Text → PatchEntry × Text
cut_entry s =
    let (id, s1) = cut s in
    let (parent_id, s2) = cut s1 in let (file_name, s3) = cut s2 in timed id parent_id file_name s3

abbrev decode : ℕ → Text → PatchStack
decode zero s = []
decode (suc n) s = let (e, rest) = cut_entry s in e ∷ decode n rest

cut_entry-sized :
    (e : PatchEntry) (rest : Text)
    → cut_entry (sized e.id (sized e.parent_id (sized e.file_name (e.created_at ∷ rest))))
      ≡ (e, rest)
cut_entry-sized e rest = ground (
  arith,
  take-sized e.id (sized e.parent_id (sized e.file_name (e.created_at ∷ rest))),
  drop-sized e.id (sized e.parent_id (sized e.file_name (e.created_at ∷ rest))),
  take-sized e.parent_id (sized e.file_name (e.created_at ∷ rest)),
  drop-sized e.parent_id (sized e.file_name (e.created_at ∷ rest)),
  take-sized e.file_name (e.created_at ∷ rest),
  drop-sized e.file_name (e.created_at ∷ rest),
)

decode-encode : (es : PatchStack) → decode (length es) (encode es) ≡ es
decode-encode [] = refl
decode-encode (e ∷ es) = ground (arith, cut_entry-sized e (encode es), decode-encode es)

abbrev unmarshal : Text → Option PatchStack
unmarshal [] = none
unmarshal (n ∷ s) = some (decode n s)

abbrev format : StackFormat
format = record { marshal = λ es. length es ∷ encode es; unmarshal = unmarshal }

round_trip : (es : PatchStack) → format.unmarshal (format.marshal es) ≡ some es
round_trip es = ap some (decode-encode es)

-- A git that succeeds and leaves the disk.
abbrev git : GitProcess
git args dir input disk = (record { stdout = codes "ok"; stderr = []; error = none }, disk)

abbrev tool : GitTool
tool = record {
  working_dir = codes "/w";
  allow_exec = true;
  dry_run_only = false;
  backup_dir = codes "b";
  stack = none;
}

abbrev bare : Node
bare = folder done

read-bare : (ps : List Text) → read ps bare ≡ none
unfolding read find find_entry
read-bare [] = refl
read-bare (p ∷ ps) = refl

bare-IsLinked : IsLinked format tool bare
bare-IsLinked = record {
  in_memory = λ stack h. absurd (cc h);
  stored = λ content stack r u.
      absurd
        (cc (r, read-bare (backup_path tool (folder_name tool.backup_dir) (codes "stack.json"))));
}

create_backup-IsLinked_example :
    let after = create_backup format tool (codes "diff") 7 8 bare in
    IsLinked format after.1.0 after.1.1
create_backup-IsLinked_example =
    create_backup-IsLinked format round_trip tool (codes "diff") 7 8 bare bare-IsLinked

backup_made : (create_backup format tool (codes "diff") 7 8 bare).0 ≡ none
unfolding create_backup animus_coder.Tools.Disk.mkdir_all animus_coder.Tools.Disk.mkdir_at
    animus_coder.Tools.Git.backup_folder animus_coder.Tools.Disk.parts_of
    animus_coder.Tools.Path.clean_parts animus_coder.Tools.Path.split_from folder_name text_eq
    animus_coder.Tools.Path.clean_step animus_coder.Tools.Path.dot animus_coder.Tools.Path.dot_dot
    find_entry animus_coder.Tools.Git.load_or_init_stack
    animus_coder.Tools.PatchStack.load_patch_stack find backup_path show_nat
    animus_coder.Tools.Disk.parent animus_coder.Tools.Disk.set_entry animus_coder.Tools.Disk.write
    animus_coder.Tools.Disk.write_at animus_coder.Tools.Git.backup_in
    animus_coder.Tools.PatchStack.blocked animus_coder.Tools.PatchStack.decoded entry_id
    animus_coder.Tools.PatchStack.latest animus_coder.Tools.Git.push_backup
    animus_coder.Tools.PatchStack.save animus_coder.Tools.PatchStack.save_made
    animus_coder.Tools.Path.go_up
backup_made = refl

restore_backup-apply_patch_example :
    let (tool', after) = (apply_patch git format tool (codes "diff") false 7 8 bare).1 in
    let (out, disk') =
      run_with_input git tool' (codes "apply" ∷ codes "-R" ∷ []) (codes "diff") after in
    restore_backup git format tool' [] after ≡ (out, (tool', disk'))
restore_backup-apply_patch_example =
    restore_backup-apply_patch git format tool (codes "diff") 7 8 bare refl refl backup_made refl

-- A tool that holds an empty stack.
abbrev started : GitTool
started = record tool { stack = some [] }

started_backup : (create_backup format started (codes "diff") 7 8 bare).0 ≡ none
unfolding create_backup animus_coder.Tools.Disk.mkdir_all animus_coder.Tools.Disk.mkdir_at
    animus_coder.Tools.Git.backup_folder animus_coder.Tools.Disk.parts_of
    animus_coder.Tools.Path.clean_parts animus_coder.Tools.Path.split_from folder_name text_eq
    animus_coder.Tools.Path.clean_step animus_coder.Tools.Path.dot animus_coder.Tools.Path.dot_dot
    find_entry animus_coder.Tools.Git.load_or_init_stack animus_coder.Tools.Disk.write
    animus_coder.Tools.Disk.write_at backup_path show_nat find animus_coder.Tools.Disk.parent
    animus_coder.Tools.Disk.set_entry animus_coder.Tools.Git.backup_in entry_id
    animus_coder.Tools.Git.push_backup animus_coder.Tools.PatchStack.blocked
    animus_coder.Tools.PatchStack.decoded animus_coder.Tools.PatchStack.latest
    animus_coder.Tools.PatchStack.load_patch_stack animus_coder.Tools.PatchStack.save
    animus_coder.Tools.PatchStack.save_made animus_coder.Tools.Path.go_up
started_backup = refl

list_backups-create_backup_example :
    (list_backups format (create_backup format started (codes "diff") 7 8 bare).1.0 bare).0
    ≡ ok (ids_of [] ++ entry_id 7 ∷ [])
list_backups-create_backup_example =
    list_backups-create_backup format started [] (codes "diff") 7 8 bare bare refl started_backup
