-- ===== src/Semantic/Rank.antt =====
-- internal/semantic/engine.go: the order of the hits.
pub mod Laws
use animus_coder.Base.{ℕ, Bool, List, [], ◌∷◌, ltb, ◌==◌, if◌then◌else◌, Text, insert}
use animus_coder.Base.Order.{text_lt}

pub record Hit : Type 0 where
  pub path : Text
  pub score : ℕ
  pub snippet : Text

-- The comparison that sort.Slice is given.
unfoldable pub ahead : Hit → Hit → Bool
ahead a b = if a.score == b.score then text_lt a.path b.path else ltb b.score a.score

unfoldable pub insert_hit : Hit → List Hit → List Hit
insert_hit h [] = h ∷ []
insert_hit h (x ∷ xs) = if ahead x h then x ∷ insert_hit h xs else h ∷ x ∷ xs

-- sort.Slice. Hits have different paths, so that the comparison leaves only one order.
unfoldable pub rank : List Hit → List Hit
unfolding insert_hit
rank [] = []
rank (h ∷ hs) = insert_hit h (rank hs)
