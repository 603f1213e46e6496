-- ===== src/Tools/Filesystem/Confined.antt =====
-- The files that the filesystem tool writes, and what it reads of them.
use animus_coder.Base.{
  ◌≡◌, refl, sym, subst, inl, inr, Bool, true, Option, none, some, List, ◌++◌, arith, Option-cases,
  All, All-append, Text, ok, Result-cases,
}
use animus_coder.Tools.Path.{render, resolve}
use animus_coder.Tools.Path.Segments.{IsPlain}
use animus_coder.Tools.Path.Contained.{resolve-IsContained}
use animus_coder.Tools.Path.Reached.{clean_parts-render}
use animus_coder.Tools.Disk.{Node, parts_of, read, write, mkdir_all, parent}
use animus_coder.Tools.Disk.Laws.{Diverges, Diverges-append, find-write, read-mkdir_all, read-write}
use animus_coder.Tools.Filesystem.{
  Filesystem, resolved, read_parts, read_file, write_made, write_parts, write_file,
}

written :
    (ps : List Text) (content : Text) (disk : Node) (made : Option Node)
    → (write_made ps content disk made).0 ≡ ok tt
    → read ps (write_made ps content disk made).1 ≡ some content
unfolding write_made
written ps content disk none h = cc
written ps content disk (some m) h = elim (Option-cases (write ps content m)) [
  | inl e ↦ absurd (ground arith)
  | inr (new, e) ↦ ground (arith, read-write ps content m new e)
]

-- A write that succeeds is read back through the same tool, whatever the path is.
pub read_file-write_file :
    (f : Filesystem) (path content : Text) (disk : Node)
    → f.allow_read ≡ true
    → (write_file f path content disk).0 ≡ ok tt
    → read_file f path (write_file f path content disk).1 ≡ ok content
unfolding read_file write_file read_parts write_parts
read_file-write_file f path content disk r h = elim (Result-cases (resolved f path)) [
  | inr (e, q) ↦ absurd (ground arith)
  | inl (ps, q) ↦ ground (arith, written ps content disk (mkdir_all (parent ps) disk))
]

resolved_parts :
    (f : Filesystem) (bs : List Text) (path : Text) (ps : List Text)
    → All IsPlain bs
    → f.guard ≡ record { base_dir = render true bs }
    → resolved f path ≡ ok ps
    → (rest : List Text) × (ps ≡ bs ++ rest)
unfolding resolved parts_of
resolved_parts f bs path ps h g q = elim (Result-cases (resolve f.guard path)) [
  | inr (e, z) ↦ absurd (ground arith)
  | inl (abs, z) ↦
      let (rest, plain, same) = resolve-IsContained bs path abs h (rw (← g) z) in
      (
        rest,
        ground (arith, same, clean_parts-render (bs ++ rest) (All-append IsPlain bs rest h plain)),
      )
]

module _ (qs : List Text) where
  write_made-read :
      (ps : List Text) (content : Text) (disk m : Node)
      → Diverges ps qs
      → read qs (write_made ps content disk (some m)).1 ≡ read qs m
  unfolding write_made read
  write_made-read ps content disk m d = elim (Option-cases (write ps content m)) [
    | inl e ↦ ground arith
    | inr (new, e) ↦ ground (arith, find-write ps qs content m new e d)
  ]

  write_parts-read :
      (ps : List Text) (content : Text) (disk : Node)
      → Diverges ps qs
      → read qs (write_parts content disk (ok ps)).1 ≡ read qs disk
  unfolding write_parts
  write_parts-read ps content disk d = elim (Option-cases (mkdir_all (parent ps) disk)) [
    | inl e ↦ unfold write_made in ground arith
    | inr (m, e) ↦
        ground (arith, write_made-read ps content disk m d, read-mkdir_all (parent ps) qs disk m e)
  ]

  -- The base directory is a clean rooted path. Whatever is written under whatever path, whether the
  -- write succeeds or not: a file whose path parts from the base directory's keeps its content.
  pub write_file-IsConfined :
      (bs : List Text) (allow_write allow_read : Bool) (path content : Text) (disk : Node)
      → All IsPlain bs
      → Diverges bs qs
      → let f : Filesystem = record {
        guard = record { base_dir = render true bs };
        allow_write = allow_write;
        allow_read = allow_read;
      } in
        read qs (write_file f path content disk).1 ≡ read qs disk
  unfolding write_file
  write_file-IsConfined bs allow_write allow_read path content disk h d =
      let f : Filesystem = record {
        guard = record { base_dir = render true bs };
        allow_write = allow_write;
        allow_read = allow_read;
      } in
      elim (Result-cases (resolved f path)) [
        | inr (e, q) ↦ unfold write_parts in ground arith
        | inl (ps, q) ↦
            let (rest, same) = resolved_parts f bs path ps h refl q in
            let apart : Diverges ps qs =
              subst (λ x. Diverges x qs) (sym same) (Diverges-append bs rest qs d) in
            ground (arith, write_parts-read ps content disk apart)
      ]
