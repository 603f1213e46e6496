-- ===== src/Tools/Git/Places.antt =====
-- Where the files of the backups stand.
use animus_coder.Base.{
  ℕ, ◌≡◌, refl, sym, ◌≢◌, inl, inr, Bool, true, ◌&&◌, not, List, [], ◌∷◌, ◌++◌, append-nil, arith,
  ◌==◌, All-append, Text, codes, text_eq, text_eq→ne, show_nat, show_nat-All,
}
use mathlib.Core.List.{reverse-cons}
use animus_coder.Tools.Path.{slash, dot, dot_dot, split_from, clean_step, clean_parts}
use animus_coder.Tools.Path.Segments.{HasNoSlash, IsPlain}
use animus_coder.Tools.Path.Reached.{split_from-part, clean_step-plain}
use animus_coder.Tools.Disk.{parts_of}
use animus_coder.Tools.Disk.Laws.{Diverges}
use animus_coder.Tools.PatchStack.{stack_json}
use animus_coder.Tools.Git.{GitTool, backup_folder, backup_path, entry_id}

split_from-join :
    (cur a name : Text)
    → HasNoSlash name
    → split_from cur (a ++ slash ∷ name) ≡ split_from cur a ++ name ∷ []
unfolding split_from
split_from-join cur [] name h =
    let last = split_from-part [] name [] h in ground (arith, last, append-nil name)
split_from-join cur (c ∷ a) name h =
    ground (arith, split_from-join [] a name h, split_from-join (cur ++ c ∷ []) a name h)

clean_parts-last :
    (kept parts : List Text) (name : Text)
    → IsPlain name
    → clean_parts true kept (parts ++ name ∷ []) ≡ clean_parts true kept parts ++ name ∷ []
unfolding clean_parts
clean_parts-last kept [] name h = rw (clean_step-plain true kept name h, reverse-cons)
clean_parts-last kept (part ∷ parts) name h =
    clean_parts-last (clean_step true kept part) parts name h

-- A plain name below a folder is one more part.
pub backup_path-plain :
    (g : GitTool) (dir name : Text)
    → IsPlain name
    → backup_path g dir name ≡ backup_folder g dir ++ name ∷ []
unfolding backup_path backup_folder parts_of
backup_path-plain g dir name h = rw (
  split_from-join [] (g.working_dir ++ slash ∷ dir) name h.one_name,
  clean_parts-last [] (split_from [] (g.working_dir ++ slash ∷ dir)) name h,
)

-- A test for `HasNoSlash` on a text that is written out.
abbrev slash_free : Text → Bool
slash_free [] = true
slash_free (c ∷ s) = not (c == slash) && slash_free s

slash_free-HasNoSlash : (s : Text) → slash_free s ≡ true → HasNoSlash s
slash_free-HasNoSlash [] h = tt
slash_free-HasNoSlash (c ∷ s) h = (ground arith, slash_free-HasNoSlash s (ground arith))

patch_name-IsPlain : (now : ℕ) → IsPlain (entry_id now ++ codes ".patch")
unfolding entry_id dot dot_dot
patch_name-IsPlain now = record {
  one_name =
      All-append (λ c. c ≢ slash) (entry_id now) (codes ".patch")
        (All-append (λ c. c ≢ slash) (codes "backup-") (show_nat now)
          (slash_free-HasNoSlash (codes "backup-") refl)
          (show_nat-All (λ c. c ≢ slash) (λ d h e. absurd (omega arith)) now))
        (slash_free-HasNoSlash (codes ".patch") refl);
  named = λ e. absurd (cc e);
  not_here = λ e. absurd (cc e);
  not_up = λ e. absurd (cc e);
}

stack_json-IsPlain : IsPlain stack_json
unfolding dot dot_dot
stack_json-IsPlain = record {
  one_name = slash_free-HasNoSlash stack_json refl;
  named = λ e. absurd (cc e);
  not_here = λ e. absurd (cc e);
  not_up = λ e. absurd (cc e);
}

patch_name-apart : (now : ℕ) → (entry_id now ++ codes ".patch") ≢ stack_json
unfolding entry_id text_eq
patch_name-apart now = text_eq→ne (entry_id now ++ codes ".patch") stack_json refl

Diverges-last : (ps : List Text) (x y : Text) → x ≢ y → Diverges (ps ++ x ∷ []) (ps ++ y ∷ [])
Diverges-last [] x y h = inl h
Diverges-last (p ∷ ps) x y h = inr (refl, Diverges-last ps x y h)

-- The path of a new patch and that of stack.json part.
pub patch-Diverges :
    (g : GitTool) (dir : Text) (now : ℕ)
    → Diverges (backup_path g dir (entry_id now ++ codes ".patch")) (backup_path g dir stack_json)
patch-Diverges g dir now =
    rw
      (
        backup_path-plain g dir (entry_id now ++ codes ".patch") (patch_name-IsPlain now),
        backup_path-plain g dir stack_json stack_json-IsPlain,
      )
      (Diverges-last (backup_folder g dir) (entry_id now ++ codes ".patch") stack_json
        (patch_name-apart now))

pub stack_json-Diverges :
    (g : GitTool) (dir : Text) (now : ℕ)
    → Diverges (backup_path g dir stack_json) (backup_path g dir (entry_id now ++ codes ".patch"))
stack_json-Diverges g dir now =
    rw
      (
        backup_path-plain g dir (entry_id now ++ codes ".patch") (patch_name-IsPlain now),
        backup_path-plain g dir stack_json stack_json-IsPlain,
      )
      (Diverges-last (backup_folder g dir) stack_json (entry_id now ++ codes ".patch")
        (λ e. patch_name-apart now (sym e)))
