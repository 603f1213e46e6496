-- ===== src/Tools/Git/Lineage.antt =====
-- `createBackup`: the backups as a chain of parents.
use animus_coder.Base.{
  ℕ, ◌≡◌, refl, sym, ap, ◌∙◌, subst, ◌⊎◌, inl, inr, Option, none, some, List, [], ◌∷◌, ◌++◌, arith,
  Bool-cases, Option-cases, Text, codes, ok, Result-cases,
}
use animus_coder.Tools.Disk.{Node, read, find, write, mkdir_all, parent, content_of, file, folder}
use animus_coder.Tools.Disk.Laws.{read-write, find-write, read-mkdir_all}
use animus_coder.Tools.PatchStack.{
  PatchEntry, PatchStack, StackFormat, latest, stack_json, blocked, decoded, save_made,
  load_patch_stack, save,
}
use animus_coder.Tools.Git.{
  GitTool, folder_name, backup_folder, backup_path, with_stack, parent_of, entry_id, new_entry,
  load_or_init_stack, push_backup, backup_in, create_backup,
}
use animus_coder.Tools.Git.Places.{patch-Diverges}

-- Every entry's parent is the entry before it, the first one's is `above`.
abbrev pub Chain : Text → PatchStack → Type 0
Chain above [] = Unit
Chain above (e ∷ es) =
    (e.parent_id ≡ above) × (e.file_name ≡ e.id ++ codes ".patch") × Chain e.id es

abbrev pub Lineage : PatchStack → Type 0
Lineage stack = Chain [] stack

newest_id : Text → PatchStack → Text
newest_id above [] = above
newest_id above (e ∷ es) = newest_id e.id es

newest_id-latest :
    (e : PatchEntry) (es : PatchStack) → newest_id e.id es ≡ parent_of (latest (e ∷ es))
unfolding newest_id latest
newest_id-latest e [] = refl
newest_id-latest e (f ∷ es) = newest_id-latest f es

newest_id-parent_of : (stack : PatchStack) → newest_id [] stack ≡ parent_of (latest stack)
unfolding newest_id latest
newest_id-parent_of [] = refl
newest_id-parent_of (e ∷ es) = newest_id-latest e es

Chain-push :
    (above : Text) (stack : PatchStack) (e : PatchEntry)
    → Chain above stack
    → e.parent_id ≡ newest_id above stack
    → e.file_name ≡ e.id ++ codes ".patch"
    → Chain above (stack ++ e ∷ [])
unfolding newest_id
Chain-push above [] e c p f = (p, f, tt)
Chain-push above (x ∷ xs) e c p f = (c.0, c.1, Chain-push x.id xs e c.2 p f)

new_entry-Lineage :
    (stack : PatchStack) (now later : ℕ)
    → Lineage stack
    → Lineage (stack ++ new_entry stack now later ∷ [])
new_entry-Lineage stack now later c =
    Chain-push [] stack (new_entry stack now later) c (sym (newest_id-parent_of stack)) refl

-- `save` leaves the old stack.json or the new one.
save_made-read :
    (content : Text) (path : List Text) (disk : Node) (made : Option Node)
    → mkdir_all (parent path) disk ≡ made
    → (read path (save_made content path disk made).1 ≡ read path disk)
      ⊎ (read path (save_made content path disk made).1 ≡ some content)
unfolding save_made
save_made-read content path disk none h = inl refl
save_made-read content path disk (some m) h = elim (Option-cases (write path content m)) [
  | inl e ↦ inl (ground (arith, read-mkdir_all (parent path) path disk m h))
  | inr (new, e) ↦ inr (ground (arith, read-write path content m new e))
]

read-patch :
    (g : GitTool) (dir : Text) (now : ℕ) (patch : Text) (made new : Node)
    → write (backup_path g dir (entry_id now ++ codes ".patch")) patch made ≡ some new
    → read (backup_path g dir stack_json) new ≡ read (backup_path g dir stack_json) made
unfolding read
read-patch g dir now patch made new e = ap content_of (
    find-write (backup_path g dir (entry_id now ++ codes ".patch")) (backup_path g dir stack_json)
      patch made new e (patch-Diverges g dir now))

module _ (format : StackFormat) where
  -- The stack in memory is a chain, and so is the one that stack.json holds.
  pub record IsLinked (g : GitTool) (disk : Node) : Type 0 where
    pub in_memory : (stack : PatchStack) → g.stack ≡ some stack → Lineage stack
    pub stored :
        (content : Text) (stack : PatchStack)
        → read (backup_path g (folder_name g.backup_dir) stack_json) disk ≡ some content
        → format.unmarshal content ≡ some stack
        → Lineage stack

  module _ (round_trip : (s : PatchStack) → format.unmarshal (format.marshal s) ≡ some s) where
    IsLinked-same :
        (g : GitTool) (disk made : Node)
        → read (backup_path g (folder_name g.backup_dir) stack_json) made
          ≡ read (backup_path g (folder_name g.backup_dir) stack_json) disk
        → IsLinked g disk
        → IsLinked g made
    IsLinked-same g disk made same linked = record {
      in_memory = linked.in_memory;
      stored = λ content stack r u. linked.stored content stack (sym same ∙ r) u;
    }

    load_patch_stack-Lineage :
        (g : GitTool) (disk : Node) (stack : PatchStack)
        → IsLinked g disk
        → load_patch_stack format (backup_path g (folder_name g.backup_dir) stack_json) disk
          ≡ ok stack
        → Lineage stack
    unfolding load_patch_stack decoded read
    load_patch_stack-Lineage g disk stack linked h =
        let path = backup_path g (folder_name g.backup_dir) stack_json in
        let root : Lineage [] = tt in
        elim (Option-cases (find path disk)) [
          | inl e ↦ elim (Bool-cases (blocked path disk)) [
            | inl q ↦ absurd (ground arith)
            | inr q ↦ subst Lineage {x = []} (ground arith) root
          ]
          | inr (node, e) ↦ at_node node e
        ]
      where
        at_node :
            (node : Node)
            → find (backup_path g (folder_name g.backup_dir) stack_json) disk ≡ some node
            → Lineage stack
        at_node (folder es) e = absurd (ground arith)
        at_node (file content) e = elim (Option-cases (format.unmarshal content)) [
          | inl q ↦ absurd (ground arith)
          | inr (found, q) ↦ linked.stored content stack (ground arith) (ground arith)
        ]

    load_or_init_stack-Lineage :
        (g : GitTool) (disk : Node) (stack : PatchStack)
        → IsLinked g disk
        → load_or_init_stack format g (folder_name g.backup_dir) disk ≡ ok stack
        → Lineage stack
    unfolding load_or_init_stack
    load_or_init_stack-Lineage g disk stack linked h = elim (Option-cases g.stack) [
      | inr (held, e) ↦ linked.in_memory stack (ground arith)
      | inl e ↦
          let loaded : load_patch_stack format (backup_path g (folder_name g.backup_dir) stack_json)
                disk
              ≡ ok stack =
            ground arith in
          load_patch_stack-Lineage g disk stack linked loaded
    ]

    -- stack.json with one text instead of another.
    IsLinked-save :
        (g : GitTool) (stack : PatchStack) (disk new : Node)
        → Lineage stack
        → IsLinked g disk
        → ((read (backup_path g (folder_name g.backup_dir) stack_json) new
              ≡ read (backup_path g (folder_name g.backup_dir) stack_json) disk)
            ⊎ (read (backup_path g (folder_name g.backup_dir) stack_json) new
                ≡ some (format.marshal stack)))
        → IsLinked (with_stack g stack) new
    unfolding folder_name backup_path
    IsLinked-save g stack disk new l linked r = record {
      in_memory = λ other h. subst Lineage (ground arith) l;
      stored = λ content other h u. elim r [
        | inl same ↦ linked.stored content other (sym same ∙ h) u
        | inr fresh ↦
            let same : stack ≡ other = ground (arith, round_trip stack) in subst Lineage same l
      ];
    }

    push_backup-IsLinked :
        (g : GitTool) (stack : PatchStack) (patch : Text) (now later : ℕ) (made : Node)
        → Lineage stack
        → IsLinked g made
        → let pushed = push_backup format g (folder_name g.backup_dir) stack patch now later made in
          IsLinked pushed.1.0 pushed.1.1
    unfolding push_backup save
    push_backup-IsLinked g stack patch now later made l linked =
        let dir = folder_name g.backup_dir in
        let path = backup_path g dir (entry_id now ++ codes ".patch") in
        let json = backup_path g dir stack_json in
        let pushed = stack ++ new_entry stack now later ∷ [] in
        elim (Option-cases (write path patch made)) [
          | inl e ↦ rw (push_backup, e) (IsLinked-save g stack made made l linked (inl refl))
          | inr (new, e) ↦
              rw (push_backup, e)
                (IsLinked-save g pushed made (save format pushed json new).1
                  (new_entry-Lineage stack now later l) linked
                  (elim (save_made-read (format.marshal pushed) json new
                    (mkdir_all (parent json) new) refl) [
                      | inl a ↦ inl (a ∙ read-patch g dir now patch made new e)
                      | inr a ↦ inr a
                    ]))
        ]

    -- `create_backup` keeps the backups linked, whether it succeeds or fails.
    pub create_backup-IsLinked :
        (g : GitTool) (patch : Text) (now later : ℕ) (disk : Node)
        → IsLinked g disk
        → let after = create_backup format g patch now later disk in IsLinked after.1.0 after.1.1
    unfolding create_backup backup_in
    create_backup-IsLinked g patch now later disk linked =
        let dir = folder_name g.backup_dir in
        elim (Option-cases (mkdir_all (backup_folder g dir) disk)) [
          | inl e ↦ rw (create_backup, e) linked
          | inr (made, e) ↦
              let same =
                read-mkdir_all (backup_folder g dir) (backup_path g dir stack_json) disk made e in
              let kept = IsLinked-same g disk made same linked in
              elim (Result-cases (load_or_init_stack format g dir made)) [
                | inr (z, q) ↦ rw (create_backup, e, q) kept
                | inl (stack, q) ↦
                    rw (create_backup, e, q)
                      (push_backup-IsLinked g stack patch now later made
                        (load_or_init_stack-Lineage g made stack kept q) kept)
              ]
        ]
