-- ===== src/Runner/Context/Tests.antt =====
-- Checks of `appendWithBudget` at concrete sizes.
use animus_coder.Base.{◌≤◌, ◌<◌, ◌≡◌, refl, ◌↔◌, true, [], ◌∷◌, arith, codes}
use animus_coder.Agent.Types.{ContextFile}
use animus_coder.Runner.Context.{Gathered, append_with_budget}
use animus_coder.Runner.Context.Budget.{IsCounted, append_with_budget-IsCounted}

-- Five bytes are gathered, and the budget is eight.
abbrev five : Gathered
five = record { files = record { path = codes "a"; content = codes "12345" } ∷ []; total = 5 }

abbrev next : ContextFile
next = record { path = codes "b"; content = codes "abcdef" }

-- Three bytes of the next file are kept, and the marker makes it fifteen.
over_budget : (append_with_budget five next 8 8).1.total ≡ 20
unfolding append_with_budget animus_coder.Runner.Context.append_under
    animus_coder.Runner.Context.cut_to
over_budget = refl

counted_budget :
    let (exhausted, g') = append_with_budget five next 8 8 in
    IsCounted 8 g' × ((exhausted ≡ true) ↔ ((0 < 8) × (8 ≤ g'.total)))
counted_budget =
    append_with_budget-IsCounted five next 8 8 (omega arith)
      (record { counted = refl; bounded = λ h. omega arith })
