-- ===== src/Tools/Path/Tests.antt =====
-- Checks of internal/tools/path.go at concrete paths.
use animus_coder.Base.{
  ◌≡◌, refl, true, false, List, [], ◌∷◌, ◌++◌, arith, All, Text, codes, text_eq, text_eq→ne,
  has_prefix, ok, err,
}
use animus_coder.Tools.Path.{dot, dot_dot, slash, render, escapes_base, resolve}
use animus_coder.Tools.Path.Segments.{IsPlain}
use animus_coder.Tools.Path.Contained.{resolve-IsContained}
use animus_coder.Tools.Path.Reached.{resolve-plain, resolve_at_root}

a-IsPlain : IsPlain (codes "a")
unfolding dot dot_dot
a-IsPlain = record {
  one_name = (omega arith, tt);
  named = text_eq→ne (codes "a") [] (unfold text_eq in refl);
  not_here = text_eq→ne (codes "a") (codes ".") (unfold text_eq in refl);
  not_up = text_eq→ne (codes "a") (codes "..") (unfold text_eq in refl);
}

-- "a/../b/./a" below "/a".
accepted :
    resolve (record { base_dir = render true (codes "a" ∷ []) }) (codes "a/../a/./a")
    ≡ ok (codes "/a/a/a")
unfolding resolve text_eq animus_coder.Tools.Path.is_abs animus_coder.Tools.Path.clean render
    animus_coder.Tools.Path.clean_parts animus_coder.Tools.Path.split_from
    animus_coder.Tools.Path.clean_step dot dot_dot animus_coder.Tools.Path.go_up has_prefix
    animus_coder.Tools.Path.slashed animus_coder.Tools.Path.join_path
accepted = refl

refused :
    resolve (record { base_dir = render true (codes "a" ∷ []) }) (codes "a/../../b")
    ≡ err escapes_base
unfolding resolve text_eq animus_coder.Tools.Path.is_abs animus_coder.Tools.Path.clean render
    animus_coder.Tools.Path.clean_parts animus_coder.Tools.Path.split_from
    animus_coder.Tools.Path.clean_step dot dot_dot animus_coder.Tools.Path.go_up has_prefix
    animus_coder.Tools.Path.slashed animus_coder.Tools.Path.join_path
refused = refl

resolve-IsContained_example :
    (rest : List Text) × All IsPlain rest
    × (codes "/a/a/a" ≡ render true ((codes "a" ∷ []) ++ rest))
resolve-IsContained_example =
    resolve-IsContained (codes "a" ∷ []) (codes "a/../a/./a") (codes "/a/a/a") (a-IsPlain, tt)
      accepted

resolve-plain_example :
    resolve
      (record { base_dir = render true (codes "a" ∷ []) })
      (render false (codes "a" ∷ codes "a" ∷ []))
    ≡ ok (render true ((codes "a" ∷ []) ++ (codes "a" ∷ codes "a" ∷ [])))
resolve-plain_example =
    resolve-plain (codes "a") [] (codes "a") (codes "a" ∷ []) (a-IsPlain, tt)
      (a-IsPlain, (a-IsPlain, tt))

resolve_at_root_example :
    resolve (record { base_dir = render true [] }) (render false (codes "a" ∷ []))
    ≡ err escapes_base
resolve_at_root_example = resolve_at_root (codes "a") [] (a-IsPlain, tt)
