-- ===== src/Tools/Disk/Laws.antt =====
-- Reads after writes on the disk, and what a write leaves alone.
use animus_coder.Base.{
  ◌≡◌, refl, ap, ◌∙◌, ◌≢◌, ◌⊎◌, inl, inr, Option, none, some, List, [], ◌∷◌, ◌++◌, arith,
  if◌then◌else◌, Option-cases, Text, text_eq, text_eq_refl, text_eq_iff,
}
use mathlib.Core.Option
use animus_coder.Tools.Disk.{
  Node, Entries, file, folder, done, entry, find_entry, set_entry, find, read, write_at, write,
  mkdir_at, mkdir_all, content_of,
}

find_entry-set_entry :
    (name other : Text) (node : Node) (es : Entries)
    → find_entry other (set_entry name node es)
      ≡ (if text_eq name other then some node else find_entry other es)
unfolding find_entry set_entry
find_entry-set_entry name other node done = refl
find_entry-set_entry name other node (entry n old es) = ground (
  arith,
  text_eq_iff n name,
  text_eq_iff n other,
  text_eq_iff name other,
  find_entry-set_entry name other node es,
)

-- Two paths that part at some folder.
abbrev pub Diverges : List Text → List Text → Type 0
Diverges [] qs = ⊥
Diverges (p ∷ ps) [] = ⊥
Diverges (p ∷ ps) (q ∷ qs) = (p ≢ q) ⊎ ((p ≡ q) × Diverges ps qs)

-- The tree below what stands there, or nothing.
abbrev below : List Text → Option Node → Option Node
below ps none = none
below ps (some node) = find ps node

below-set :
    (p q : Text) (qs : List Text) (node : Node) (es : Entries)
    → below (q ∷ qs) (some (folder (set_entry p node es)))
      ≡ (if text_eq p q then find qs node else below (q ∷ qs) (some (folder es)))
unfolding find
below-set p q qs node es = ground (arith, find_entry-set_entry p q node es)

write_at_self :
    (ps : List Text) (content : Text) (node : Option Node) (new : Node)
    → write_at ps content node ≡ some new
    → find ps new ≡ some (file content)
unfolding write_at find
write_at_self [] content none new h = ground arith
write_at_self [] content (some (file old)) new h = ground arith
write_at_self [] content (some (folder es)) new h = cc
write_at_self (p ∷ ps) content none new h = cc
write_at_self (p ∷ ps) content (some (file old)) new h = cc
write_at_self (p ∷ ps) content (some (folder es)) new h =
    elim (Option-cases (write_at ps content (find_entry p es))) [
      | inl e ↦ absurd (ground arith)
      | inr (m, e) ↦ ground (
        arith,
        find_entry-set_entry p p m es,
        text_eq_refl p,
        write_at_self ps content (find_entry p es) m e,
      )
    ]

-- A new entry that agrees with the old one along the rest of a diverging path.
set_entry-Diverges :
    (p q : Text) (qs : List Text) (node : Node) (es : Entries)
    → (p ≢ q) ⊎ ((p ≡ q) × (find qs node ≡ below qs (find_entry p es)))
    → find (q ∷ qs) (folder (set_entry p node es)) ≡ below (q ∷ qs) (some (folder es))
unfolding find
set_entry-Diverges p q qs node es (inl apart) =
    ground (arith, find_entry-set_entry p q node es, text_eq_iff p q)
set_entry-Diverges p q qs node es (inr (same, agrees)) =
    ground (arith, find_entry-set_entry p q node es, text_eq_iff p q, agrees)

-- The last step of both inductions below.
folder-Diverges :
    (p q : Text) (ps qs : List Text) (es : Entries) (made : Option Node) (new : Node)
    → Option.map (λ node. folder (set_entry p node es)) made ≡ some new
    → Diverges (p ∷ ps) (q ∷ qs)
    → ((m : Node) → made ≡ some m → Diverges ps qs → find qs m ≡ below qs (find_entry p es))
    → find (q ∷ qs) new ≡ below (q ∷ qs) (some (folder es))
folder-Diverges p q ps qs es none new h d rest = cc
folder-Diverges p q ps qs es (some m) new h d rest =
    let agrees : (p ≢ q) ⊎ ((p ≡ q) × (find qs m ≡ below qs (find_entry p es))) = elim d [
      | inl a ↦ inl a
      | inr (same, more) ↦ inr (same, rest m refl more)
    ] in
    ground (arith, set_entry-Diverges p q qs m es agrees)

below-done : (q : Text) (qs : List Text) → below (q ∷ qs) (some (folder done)) ≡ none
unfolding find find_entry
below-done q qs = refl

write_at-Diverges :
    (ps qs : List Text) (content : Text) (node : Option Node) (new : Node)
    → write_at ps content node ≡ some new
    → Diverges ps qs
    → find qs new ≡ below qs node
unfolding write_at
write_at-Diverges [] qs content _ new h d = elim d [ ]
write_at-Diverges (p ∷ ps) [] content _ new h d = elim d [ ]
write_at-Diverges (p ∷ ps) (q ∷ qs) content none new h d = cc
write_at-Diverges (p ∷ ps) (q ∷ qs) content (some (file old)) new h d = cc
write_at-Diverges (p ∷ ps) (q ∷ qs) content (some (folder es)) new h d =
    folder-Diverges p q ps qs es (write_at ps content (find_entry p es)) new h d
      (write_at-Diverges ps qs content (find_entry p es))

-- A path at which a folder stands holds no content, nor does a path through a new entry that has the
-- contents of the old one hold another content.
content-set_entry :
    (p q : Text) (qs : List Text) (node : Node) (es : Entries)
    → content_of (find qs node) ≡ content_of (below qs (find_entry p es))
    → content_of (find (q ∷ qs) (folder (set_entry p node es)))
      ≡ content_of (below (q ∷ qs) (some (folder es)))
unfolding find
content-set_entry p q qs node es h =
    ground (arith, find_entry-set_entry p q node es, text_eq_iff p q)

folder-content :
    (p : Text) (qs : List Text) (es : Entries) (made : Option Node) (new : Node)
    → Option.map (λ node. folder (set_entry p node es)) made ≡ some new
    → ((m : Node)
        → made ≡ some m
        → (qs : List Text) → content_of (find qs m) ≡ content_of (below qs (find_entry p es)))
    → content_of (find qs new) ≡ content_of (below qs (some (folder es)))
folder-content p qs es none new h rest = cc
folder-content p [] es (some m) new h rest = unfold find in ground arith
folder-content p (q ∷ qs) es (some m) new h rest =
    ground (arith, content-set_entry p q qs m es (rest m refl qs))

content-done : (qs : List Text) → content_of (below qs (some (folder done))) ≡ none
unfolding find find_entry
content-done [] = refl
content-done (q ∷ qs) = refl

mkdir_at-content :
    (ps : List Text) (node : Option Node) (new : Node)
    → mkdir_at ps node ≡ some new
    → (qs : List Text) → content_of (find qs new) ≡ content_of (below qs node)
unfolding mkdir_at find_entry
mkdir_at-content [] none new h qs = ground (arith, content-done qs)
mkdir_at-content [] (some (file content)) new h qs = cc
mkdir_at-content [] (some (folder es)) new h qs = ground arith
mkdir_at-content (p ∷ ps) none new h qs =
    folder-content p qs done (mkdir_at ps none) new h (mkdir_at-content ps none) ∙ content-done qs
mkdir_at-content (p ∷ ps) (some (file content)) new h qs = cc
mkdir_at-content (p ∷ ps) (some (folder es)) new h qs =
    folder-content p qs es (mkdir_at ps (find_entry p es)) new h
      (mkdir_at-content ps (find_entry p es))

-- A file that was written is read back.
pub read-write :
    (ps : List Text) (content : Text) (disk new : Node)
    → write ps content disk ≡ some new
    → read ps new ≡ some content
unfolding read write
read-write ps content disk new h = ap content_of (write_at_self ps content (some disk) new h)

-- What stands at a path that parts from the written one is as before.
pub find-write :
    (ps qs : List Text) (content : Text) (disk new : Node)
    → write ps content disk ≡ some new
    → Diverges ps qs
    → find qs new ≡ find qs disk
unfolding write
find-write ps qs content disk new h d = write_at-Diverges ps qs content (some disk) new h d

-- Making folders changes the content of no file.
pub read-mkdir_all :
    (ps qs : List Text) (disk new : Node)
    → mkdir_all ps disk ≡ some new
    → read qs new ≡ read qs disk
unfolding mkdir_all read
read-mkdir_all ps qs disk new h = mkdir_at-content ps (some disk) new h qs

-- A longer path parts from another where a shorter one does.
pub Diverges-append : (ps more qs : List Text) → Diverges ps qs → Diverges (ps ++ more) qs
Diverges-append [] more qs d = elim d [ ]
Diverges-append (p ∷ ps) more [] d = elim d [ ]
Diverges-append (p ∷ ps) more (q ∷ qs) (inl e) = inl e
Diverges-append (p ∷ ps) more (q ∷ qs) (inr (e, d)) = inr (e, Diverges-append ps more qs d)
