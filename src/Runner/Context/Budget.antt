-- ===== src/Runner/Context/Budget.antt =====
-- The byte count of a gathered context and its bound.
use animus_coder.Base.{
  ℕ, ◌+◌, ◌-◌, ◌≤◌, ◌<◌, ◌≡◌, refl, ◌↔◌, inl, inr, true, List, [], ◌∷◌, ◌++◌, arith, ltb, leb,
  if◌then◌else◌, Bool-cases, length, take, length-append, length-take, Text,
}
use animus_coder.Agent.Types.{ContextFile}
use animus_coder.Runner.Context.{Gathered, marker, cut_to, append_under, append_with_budget}

abbrev pub size_of : List ContextFile → ℕ
size_of [] = 0
size_of (f ∷ fs) = length f.content + size_of fs

size_of-append : (fs gs : List ContextFile) → size_of (fs ++ gs) ≡ size_of fs + size_of gs
size_of-append [] gs = omega arith
size_of-append (f ∷ fs) gs = omega (arith, size_of-append fs gs)

-- The count is that of the files, and it passes the budget by a marker's length at most.
pub record IsCounted (max_bytes : ℕ) (g : Gathered) : Type 0 where
  pub counted : g.total ≡ size_of g.files
  pub bounded : 0 < max_bytes → g.total ≤ max_bytes + 12

pub length-cut_to :
    (limit : ℕ) (content : Text) → 0 < limit → length (cut_to limit content) ≤ limit + 12
unfolding cut_to
length-cut_to limit content h =
    ground (arith, length-append (take limit content) marker, length-take limit content)

append_under-counted :
    (limit max_bytes : ℕ) (g : Gathered) (cf : ContextFile)
    → g.total ≡ size_of g.files
    → (append_under limit max_bytes g cf).1.total
      ≡ size_of (append_under limit max_bytes g cf).1.files
unfolding append_under
append_under-counted limit max_bytes g cf h =
    ground (arith, size_of-append g.files (record cf { content = cut_to limit cf.content } ∷ []))

append_under-IsCounted :
    (limit max_bytes : ℕ) (g : Gathered) (cf : ContextFile)
    → 0 < limit
    → (0 < max_bytes → g.total + limit ≤ max_bytes)
    → g.total ≡ size_of g.files
    → let (exhausted, g') = append_under limit max_bytes g cf in
      IsCounted max_bytes g' × ((exhausted ≡ true) ↔ ((0 < max_bytes) × (max_bytes ≤ g'.total)))
unfolding append_under
append_under-IsCounted limit max_bytes g cf some_room room h =
    let short = length-cut_to limit cf.content some_room in
    (
      record {
        counted = append_under-counted limit max_bytes g cf h;
        bounded = λ p. omega (arith, short, room p);
      },
      (λ e. (ground arith, ground arith), λ (p, q). ground arith),
    )

-- Adding a file keeps the count right, and with a budget and a positive limit for one file the count
-- stays within the budget and the 12 bytes of one marker. The flag says whether there is a budget
-- that is used up.
pub append_with_budget-IsCounted :
    (g : Gathered) (cf : ContextFile) (max_bytes per_file_cap : ℕ)
    → 0 < per_file_cap
    → IsCounted max_bytes g
    → let (exhausted, g') = append_with_budget g cf max_bytes per_file_cap in
      IsCounted max_bytes g' × ((exhausted ≡ true) ↔ ((0 < max_bytes) × (max_bytes ≤ g'.total)))
unfolding append_with_budget
append_with_budget-IsCounted g cf max_bytes per_file_cap cap c =
    let remaining = max_bytes - g.total in
    let limit = if ltb remaining per_file_cap then remaining else per_file_cap in
    elim (Bool-cases (ltb 0 max_bytes)) [
      | inl p ↦ elim (Bool-cases (leb max_bytes g.total)) [
        | inl full ↦ rw (p, full) (c, (λ h. (ground arith, ground arith), λ h. refl))
        | inr room ↦
            rw (p, room)
              (append_under-IsCounted limit max_bytes g cf (ground arith) (λ h. ground arith)
                c.counted)
      ]
      | inr p ↦ rw p (
          append_under-IsCounted per_file_cap max_bytes g cf cap (λ h. absurd (ground arith))
            c.counted)
    ]
