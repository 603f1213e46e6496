-- ===== src/Runner/Context/Files/Bounds.antt =====
-- The size of the context that `buildContextFiles` returns.
use animus_coder.Base.{
  ℕ, ◌+◌, ◌-◌, ◌≤◌, ◌<◌, ◌≡◌, refl, subst, inl, inr, Bool, true, false, ◌&&◌, Option, none, some,
  List, [], ◌∷◌, arith, ltb, leb, if◌then◌else◌, Bool-cases, length, All, All-append, Text, elem,
  Result, ok, err,
}
use animus_coder.Tools.Disk.{Node}
use animus_coder.Tools.Filesystem.{Filesystem}
use animus_coder.Tools.Schema.{ToolRegistry}
use animus_coder.Agent.Types.{ContextFile}
use animus_coder.Runner.Context.{Gathered, cut_to, append_under, append_with_budget}
use animus_coder.Runner.Context.Budget.{
  size_of, IsCounted, length-cut_to, append_with_budget-IsCounted,
}
use animus_coder.Runner.Context.Files.{
  ContextError, context_file, gather, gathered_file, added, per_file_cap, files_of,
  nothing_gathered, candidate_paths, build_with, build_context_files,
}

-- A file of at most `cap` bytes and one marker.
abbrev pub IsShort : ℕ → ContextFile → Type 0
IsShort cap f = length f.content ≤ cap + 12

append_under-IsShort :
    (cap limit max_bytes : ℕ) (g : Gathered) (cf : ContextFile)
    → 0 < limit
    → limit ≤ cap
    → All (IsShort cap) g.files
    → All (IsShort cap) (append_under limit max_bytes g cf).1.files
unfolding append_under
append_under-IsShort cap limit max_bytes g cf l h a =
    All-append (IsShort cap) g.files (record cf { content = cut_to limit cf.content } ∷ []) a
      (omega (arith, length-cut_to limit cf.content l), tt)

append_with_budget-IsShort :
    (g : Gathered) (cf : ContextFile) (max_bytes cap : ℕ)
    → 0 < cap
    → All (IsShort cap) g.files
    → All (IsShort cap) (append_with_budget g cf max_bytes cap).1.files
unfolding append_with_budget
append_with_budget-IsShort g cf max_bytes cap c a =
    let remaining = max_bytes - g.total in
    let limit = if ltb remaining cap then remaining else cap in
    elim (Bool-cases (ltb 0 max_bytes)) [
      | inl p ↦ elim (Bool-cases (leb max_bytes g.total)) [
        | inl full ↦ rw (p, full) a
        | inr room ↦
            rw (p, room)
              (append_under-IsShort cap limit max_bytes g cf (ground arith) (ground arith) a)
      ]
      | inr p ↦ rw p (append_under-IsShort cap cap max_bytes g cf c (omega arith) a)
    ]

-- What the loop keeps.
pub record IsWithin (max_bytes cap : ℕ) (g : Gathered) : Type 0 where
  pub counted : IsCounted max_bytes g
  pub short : All (IsShort cap) g.files

abbrev Within : ℕ → ℕ → Result ContextError Gathered → Type 0
Within max_bytes cap (err e) = Unit {0}
Within max_bytes cap (ok g) = IsWithin max_bytes cap g

added-Within :
    (max_bytes cap : ℕ) (r : Bool × Gathered) (rest : Gathered → Result ContextError Gathered)
    → IsWithin max_bytes cap r.1
    → ((g : Gathered) → IsWithin max_bytes cap g → Within max_bytes cap (rest g))
    → Within max_bytes cap (added r rest)
added-Within max_bytes cap (true, g) rest w h = w
added-Within max_bytes cap (false, g) rest w h = h g w

gathered_file-Within :
    (max_bytes cap : ℕ) (g : Gathered) (rest : Gathered → Result ContextError Gathered)
    (r : Result ContextError ContextFile)
    → 0 < cap
    → IsWithin max_bytes cap g
    → ((g' : Gathered) → IsWithin max_bytes cap g' → Within max_bytes cap (rest g'))
    → Within max_bytes cap (gathered_file max_bytes cap g rest r)
gathered_file-Within max_bytes cap g rest (err e) c w h = tt
gathered_file-Within max_bytes cap g rest (ok cf) c w h =
    added-Within max_bytes cap (append_with_budget g cf max_bytes cap) rest
      (record {
        counted = (append_with_budget-IsCounted g cf max_bytes cap c w.counted).0;
        short = append_with_budget-IsShort g cf max_bytes cap c w.short;
      })
      h

module _ (fs : Filesystem) (disk : Node) (max_bytes cap : ℕ) (some_room : 0 < cap) where
  gather-Within :
      (seen paths : List Text) (g : Gathered)
      → IsWithin max_bytes cap g
      → Within max_bytes cap (gather fs disk max_bytes cap seen paths g)
  unfolding gather
  gather-Within seen [] g w = w
  gather-Within seen (p ∷ rest) g w = elim (Bool-cases (elem p seen)) [
    | inl e ↦ rw e (gather-Within seen rest g w)
    | inr e ↦ elim (Bool-cases (ltb 0 max_bytes && leb max_bytes g.total)) [
      | inl full ↦ rw (e, full) w
      | inr room ↦
          rw (e, room)
            (gathered_file-Within max_bytes cap g (gather fs disk max_bytes cap (p ∷ seen) rest)
              (context_file fs p disk) some_room w (gather-Within (p ∷ seen) rest))
    ]
  ]

-- The files fit in the budget, where there is one, and each in the cap for one file.
abbrev pub Fits : ℕ → List ContextFile → Type 0
Fits max_bytes files =
    (0 < max_bytes → size_of files ≤ max_bytes + 12) × All (IsShort (per_file_cap max_bytes)) files

files_of-Fits :
    (max_bytes : ℕ) (r : Result ContextError Gathered) (files : List ContextFile)
    → Within max_bytes (per_file_cap max_bytes) r
    → files_of r ≡ ok files
    → Fits max_bytes files
files_of-Fits max_bytes (err e) files w h = absurd (ground arith)
files_of-Fits max_bytes (ok g) files w h =
    let same : g.files ≡ files = cc in
    subst (Fits max_bytes) same
      (λ p. omega (arith, w.counted.counted, w.counted.bounded p), w.short)

build_with-Fits :
    (reg : ToolRegistry) (fs : Option Filesystem) (prompt : Text) (paths : List Text)
    (max_bytes : ℕ) (disk : Node) (files : List ContextFile)
    → build_with reg fs prompt paths max_bytes disk ≡ ok files
    → Fits max_bytes files
build_with-Fits reg none prompt paths max_bytes disk files h =
    let same : [] ≡ files = cc in subst (Fits max_bytes) same (λ p. omega arith, tt)
build_with-Fits reg (some fs) prompt paths max_bytes disk files h =
    files_of-Fits max_bytes
      (gather fs disk max_bytes (per_file_cap max_bytes) []
        (candidate_paths reg fs prompt disk paths) nothing_gathered)
      files
      (gather-Within fs disk max_bytes (per_file_cap max_bytes) (ground arith) []
        (candidate_paths reg fs prompt disk paths) nothing_gathered
        (record { counted = record { counted = refl; bounded = λ p. omega arith }; short = tt }))
      h

-- The files of a context that was built: with a byte budget they hold at most that many bytes and
-- the 12 of one marker, and each file holds at most the cap for one file (32 KiB, or the budget where
-- that is less) and a marker.
pub build_context_files-Fits :
    (reg : ToolRegistry) (prompt : Text) (paths : List Text) (max_bytes : ℕ) (disk : Node)
    (files : List ContextFile)
    → build_context_files (some reg) prompt paths max_bytes disk ≡ ok files
    → (0 < max_bytes → size_of files ≤ max_bytes + 12)
      × All (λ (f : ContextFile). length f.content ≤ per_file_cap max_bytes + 12) files
unfolding build_context_files
build_context_files-Fits reg prompt paths max_bytes disk files h =
    build_with-Fits reg reg.fs prompt paths max_bytes disk files h
