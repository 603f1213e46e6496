-- ===== src/Tools/Filesystem/Tests.antt =====
-- Checks of internal/tools/filesystem.go on a concrete disk.
use animus_coder.Base.{
  ◌≡◌, refl, inl, true, [], ◌∷◌, arith, codes, text_eq, text_eq→ne, has_prefix, ok,
}
use animus_coder.Tools.Path.{dot, dot_dot, render}
use animus_coder.Tools.Path.Segments.{IsPlain}
use animus_coder.Tools.Disk.{Node, file, folder, entry, done, read}
use animus_coder.Tools.Filesystem.{Filesystem, read_file, write_file}
use animus_coder.Tools.Filesystem.Confined.{read_file-write_file, write_file-IsConfined}

-- A folder "/w", and a file "/s" beside it.
abbrev disk : Node
disk = folder (entry (codes "w") (folder done) (entry (codes "s") (file (codes "secret")) done))

abbrev tool : Filesystem
tool = record {
  guard = record { base_dir = render true (codes "w" ∷ []) };
  allow_write = true;
  allow_read = true;
}

w-IsPlain : IsPlain (codes "w")
unfolding dot dot_dot
w-IsPlain = record {
  one_name = (omega arith, tt);
  named = text_eq→ne (codes "w") [] (unfold text_eq in refl);
  not_here = text_eq→ne (codes "w") (codes ".") (unfold text_eq in refl);
  not_up = text_eq→ne (codes "w") (codes "..") (unfold text_eq in refl);
}

written : (write_file tool (codes "a/b") (codes "x") disk).0 ≡ ok tt
unfolding write_file animus_coder.Tools.Filesystem.resolved animus_coder.Tools.Path.resolve text_eq
    animus_coder.Tools.Path.is_abs animus_coder.Tools.Path.clean render
    animus_coder.Tools.Path.clean_parts animus_coder.Tools.Path.split_from
    animus_coder.Tools.Path.clean_step dot dot_dot has_prefix animus_coder.Tools.Path.slashed
    animus_coder.Tools.Path.join_path animus_coder.Tools.Disk.mkdir_all
    animus_coder.Tools.Disk.mkdir_at animus_coder.Tools.Disk.find_entry
    animus_coder.Tools.Disk.parent animus_coder.Tools.Disk.parts_of
    animus_coder.Tools.Disk.set_entry animus_coder.Tools.Disk.write animus_coder.Tools.Disk.write_at
    animus_coder.Tools.Filesystem.write_made animus_coder.Tools.Filesystem.write_parts
    animus_coder.Tools.Path.go_up
written = refl

read_file-write_file_example :
    read_file tool (codes "a/b") (write_file tool (codes "a/b") (codes "x") disk).1 ≡ ok (codes "x")
read_file-write_file_example = read_file-write_file tool (codes "a/b") (codes "x") disk refl written

write_file-IsConfined_example :
    read (codes "s" ∷ []) (write_file tool (codes "a/../../s") (codes "x") disk).1
    ≡ read (codes "s" ∷ []) disk
write_file-IsConfined_example =
    write_file-IsConfined (codes "s" ∷ []) (codes "w" ∷ []) true true (codes "a/../../s")
      (codes "x") disk (w-IsPlain, tt)
      (inl (text_eq→ne (codes "w") (codes "s") (unfold text_eq in refl)))
