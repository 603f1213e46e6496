-- ===== src/Tools/Filesystem/Structure/Laws.antt =====
-- internal/tools/filesystem.go: how long an outline may become.
use animus_coder.Base.{
  ℕ, ◌+◌, ◌-◌, ◌*◌, ◌≤◌, ◌<◌, ◌≡◌, refl, inl, inr, [], ◌∷◌, ◌++◌, arith, ltb, leb, Bool-cases,
  length, length-append, Text,
}
use animus_coder.Tools.Disk.{Node, Entries, file, folder, done, entry}
use animus_coder.Tools.Filesystem.Structure.{
  Outline, outline_line, truncation_line, add_line, truncate, describe_folder, describe_entries,
  skip_structure_dir,
}

-- Before the last entry that counts, a line per entry and the root's. Each entry from there on may
-- come with a second line.
abbrev pub IsCapped : ℕ → Outline → Type 0
IsCapped max_entries o = length o.lines ≤ 1 + o.added + (o.added + 1 - max_entries)

add_line-IsCapped :
    (max_entries : ℕ) (line : Text) (o : Outline)
    → IsCapped max_entries o
    → o.added + 1 < max_entries
    → IsCapped max_entries (add_line line o)
unfolding add_line
add_line-IsCapped max_entries line o h room = omega (arith, length-append {0} o.lines (line ∷ []))

truncate-IsCapped :
    (max_entries : ℕ) (line last : Text) (o : Outline)
    → IsCapped max_entries o
    → max_entries ≤ o.added + 1
    → IsCapped max_entries (truncate last (add_line line o))
unfolding add_line truncate
truncate-IsCapped max_entries line last o h full = omega (
  arith,
  length-append {0} o.lines (line ∷ []),
  length-append {0} (o.lines ++ line ∷ []) (last ∷ []),
)

added-add_line : (line : Text) (o : Outline) → (add_line line o).added ≡ o.added + 1
unfolding add_line
added-add_line line o = refl

added-truncate : (line : Text) (o : Outline) → (truncate line o).added ≡ o.added
unfolding truncate
added-truncate line o = refl

module _ (max_depth max_entries : ℕ) where
  -- An outline that a folder at this depth may leave.
  abbrev Bounded : ℕ → Outline → Type 0
  Bounded depth o = (o.added + depth ≤ max_entries + max_depth) × IsCapped max_entries o

  mutual
    unfolding describe_folder

    folder-Bounded :
        (depth : ℕ) (node : Node) (o : Outline)
        → depth ≤ max_depth + 1
        → o.added < max_entries
        → IsCapped max_entries o
        → Bounded depth (describe_folder max_depth max_entries depth node o)
    folder-Bounded depth (file content) o d h c = (omega arith, c)
    folder-Bounded depth (folder es) o d h c = elim (Bool-cases (ltb max_depth depth)) [
      | inl e ↦ rw e (omega arith, c)
      | inr e ↦ rw e (entries-Bounded depth es o (ground arith) (ground arith) c)
    ]

    entries-Bounded :
        (depth : ℕ) (es : Entries) (o : Outline)
        → depth ≤ max_depth
        → o.added + depth < max_entries + max_depth
        → IsCapped max_entries o
        → Bounded depth (describe_entries max_depth max_entries depth es o)
    entries-Bounded depth done o d h c = (omega arith, c)
    entries-Bounded depth (entry name node es) o d h c =
        let line = outline_line depth name node in
        let last = truncation_line depth max_entries in
        let o' = add_line line o in
        let grown : o'.added ≡ o.added + 1 = added-add_line line o in
        elim (Bool-cases (skip_structure_dir name)) [
          | inl e ↦ rw e (entries-Bounded depth es o d h c)
          | inr e ↦ elim (Bool-cases (leb max_entries o'.added)) [
            | inl full ↦
                rw (e, full)
                  (
                    omega (arith, added-truncate last o', grown),
                    truncate-IsCapped max_entries line last o c (ground (arith, grown)),
                  )
            | inr room ↦
                let capped = add_line-IsCapped max_entries line o c (ground (arith, grown)) in
                let inside =
                  folder-Bounded (depth + 1) node o' (omega arith) (ground (arith, grown)) capped in
                rw (e, room)
                  (entries-Bounded depth es
                    (describe_folder max_depth max_entries (depth + 1) node o') d
                    (omega (arith, inside.0)) inside.1)
          ]
        ]

-- The outline of a folder, where at least one entry and one level are allowed: it shows fewer than
-- max_entries + max_depth entries, on at most max_entries + 2 * max_depth lines, the root's and those
-- that announce a truncation included.
pub describe_folder_bounds :
    (max_depth max_entries : ℕ) (root : Text) (node : Node)
    → 0 < max_depth
    → 0 < max_entries
    → let o =
        describe_folder max_depth max_entries 1 node (record { lines = root ∷ []; added = 0 }) in
      (o.added < max_entries + max_depth) × (length o.lines ≤ max_entries + 2 * max_depth)
describe_folder_bounds max_depth max_entries root node d m =
    let start : Outline = record { lines = root ∷ []; added = 0 } in
    let b =
      folder-Bounded max_depth max_entries 1 node start (omega arith) (omega arith) (omega arith) in
    (omega (arith, b.0), omega (arith, b.0, b.1))
