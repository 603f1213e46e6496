-- ===== src/Runner/ToolCalls/Fenced.antt =====
-- Contents with a fence that is marked as JSON.
use animus_coder.Base.{
  ℕ, zero, suc, ◌+◌, ◌≡◌, refl, sym, ap, ◌∙◌, subst, inl, inr, true, none, some, [], ◌∷◌, arith,
  Bool-cases, Option-cases, is_some, take, Text, trim_space, has_prefix, contains, is_space,
  trim_left, trim_right, keep_right,
}
use animus_coder.Runner.ToolCalls.{
  index_of, drop, fence, json_fence, Decoder, cut_fence, cut_at, first_of, unfenced, named_call,
  decoded_calls, extract_tool_calls,
}

index_of-drop : (sub s : Text) (n : ℕ) → index_of sub s ≡ some n → has_prefix (drop n s) sub ≡ true
unfolding index_of drop
index_of-drop sub [] zero h = ground arith
index_of-drop sub [] (suc n) h = absurd (ground arith)
index_of-drop sub (c ∷ s) zero h = elim (Bool-cases (has_prefix (c ∷ s) sub)) [
  | inl e ↦ e
  | inr e ↦ absurd (ground arith)
]
index_of-drop sub (c ∷ s) (suc n) h = elim (Bool-cases (has_prefix (c ∷ s) sub)) [
  | inl e ↦ absurd (ground arith)
  | inr e ↦ index_of-drop sub s n (ground arith)
]

drop-nil : (n : ℕ) → drop n [] ≡ []
unfolding drop
drop-nil zero = refl
drop-nil (suc n) = refl

suc-add : (n k : ℕ) → suc n + k ≡ suc (n + k)
suc-add n k = omega arith

drop-add : (n k : ℕ) (s : Text) → drop (n + k) s ≡ drop k (drop n s)
unfolding drop
drop-add zero k s = ap (λ m. drop m s) (omega arith)
drop-add (suc n) k [] = drop-nil (suc n + k) ∙ sym (drop-nil k)
drop-add (suc n) k (c ∷ s) = ap (λ m. drop m (c ∷ s)) (suc-add n k) ∙ drop-add n k s

-- Behind the three marks of such a fence stands a j.
behind_marks :
    (s : Text) → has_prefix s json_fence ≡ true → (rest : Text) × (drop 3 s ≡ b'j' ∷ rest)
unfolding json_fence has_prefix drop
behind_marks [] h = absurd (cc h)
behind_marks (a ∷ []) h = absurd (ground arith)
behind_marks (a ∷ b ∷ []) h = absurd (ground arith)
behind_marks (a ∷ b ∷ c ∷ []) h = absurd (ground arith)
behind_marks (a ∷ b ∷ c ∷ d ∷ s) h = (s, ground arith)

keep_right-j : (s : Text) → (rest : Text) × (keep_right b'j' s ≡ b'j' ∷ rest)
unfolding keep_right is_space
keep_right-j [] = ([], refl)
keep_right-j (d ∷ s) = (d ∷ s, refl)

trim_space-j : (s : Text) → (rest : Text) × (trim_space (b'j' ∷ s) ≡ b'j' ∷ rest)
unfolding trim_space trim_left trim_right is_space
trim_space-j s = keep_right-j (trim_right s)

-- What stands between the marks and the next fence.
between :
    (content more : Text)
    → is_some (index_of fence (b'j' ∷ more)) ≡ true
    → (rest : Text) × ((elim (index_of fence (b'j' ∷ more)) [
      | none ↦ content
      | some end ↦ trim_space (take end (b'j' ∷ more))
    ])
        ≡ b'j' ∷ rest)
unfolding index_of fence has_prefix
between content more closed = elim (Option-cases (index_of fence more)) [
  | inl e ↦ absurd (ground arith)
  | inr (end, e) ↦ let (rest, same) = trim_space-j (take end more) in (rest, rw e same)
]

-- A text that is cut between two fences, the first marked as JSON.
cut_fence-j :
    (content : Text) (start : ℕ)
    → index_of json_fence content ≡ some start
    → is_some (index_of fence (drop (start + 3) content)) ≡ true
    → (rest : Text) × (cut_fence content start ≡ b'j' ∷ rest)
unfolding cut_fence
cut_fence-j content start at closed =
    let (more, marks) =
      behind_marks (drop start content) (index_of-drop json_fence content start at) in
    let behind : drop (start + 3) content ≡ b'j' ∷ more = drop-add start 3 content ∙ marks in
    let done =
      between content more (subst (λ t. is_some (index_of fence t) ≡ true) behind closed) in
    subst
      (λ t.
        (rest : Text) × ((elim (index_of fence t) [
          | none ↦ content
          | some end ↦ trim_space (take end t)
        ])
          ≡ b'j' ∷ rest))
      (sym behind) done

-- A content with a fence that is marked as JSON and closed: if no JSON value starts with the letter j
-- for the decoder, no tool call is found, whatever stands in the fence.
pub extract_tool_calls-fenced :
    (decoder : Decoder) (content : Text) (start : ℕ)
    → ((s : Text) → decoder.single (b'j' ∷ s) ≡ none)
    → contains (trim_space content) fence ≡ true
    → index_of json_fence (trim_space content) ≡ some start
    → is_some (index_of fence (drop (start + 3) (trim_space content))) ≡ true
    → extract_tool_calls decoder content ≡ []
unfolding extract_tool_calls decoded_calls named_call unfenced cut_at first_of has_prefix
extract_tool_calls-fenced decoder content start no_j fenced at closed =
    let trimmed = trim_space content in
    let (rest, same) = cut_fence-j trimmed start at closed in
    let refused = no_j rest in ground arith
