-- ===== src/Runner/TestOutput/Report.antt =====
-- The report that `parseTestOutput` makes of the lines.
use animus_coder.Base.{
  ap, All-append, text_eq_iff, ℕ, ◌≡◌, refl, sym, subst, ◌≢◌, ◌↔◌, inl, inr, true, false, Option,
  none, some, List, [], ◌∷◌, ◌++◌, arith, if◌then◌else◌, Bool-cases, Option-cases, Among,
  IsDistinct, All, Text, codes, text_eq, text_eq→ne, trim_space, join, lower_byte, is_space,
  trim_left, trim_right, keep_right,
}
use animus_coder.Tools.Dedupe.{dedupe_strings}
use animus_coder.Tools.Dedupe.Laws.{dedupe_strings-IsDistinct}
use animus_coder.Runner.TestOutput.{
  is_name_byte, long_s, kelvin_sign, is_name_letter, begins_letter, name_from, name_prefix,
  whole_name, behind_keyword, strip_keyword, match_here, find_name, lines_from, kept, names_in,
  is_empty, parse_test_output,
}

abbrev pub joined : List Text → Text
joined [] = []
joined (l ∷ letters) = l ++ joined letters

-- A name of a test: one or more letters of the class.
abbrev pub IsTestName : Text → Type 0
IsTestName name =
    (name ≢ [])
    × ((letters : List Text) × All (λ l. is_name_letter l ≡ true) letters × (name ≡ joined letters))

name_from-letters :
    (letter s : Text)
    → (letters : List Text) × All (λ l. is_name_letter l ≡ true) letters
      × (name_from letter s ≡ joined letters)
unfolding name_from
name_from-letters letter [] = ([], tt, refl)
name_from-letters letter (c ∷ s) =
    let read = letter ++ c ∷ [] in
    elim (Bool-cases (is_name_letter read)) [
      | inl e ↦
          let (letters, a, q) = name_from-letters [] s in
          rw e (read ∷ letters, (e, a), ap (λ t. read ++ t) q)
      | inr e ↦ elim (Bool-cases (begins_letter read)) [
        | inl b ↦ rw (e, b) (name_from-letters read s)
        | inr b ↦ rw (e, b) ([], tt, refl)
      ]
    ]

whole_name-IsTestName : (o : Option Text) (name : Text) → whole_name o ≡ some name → IsTestName name
unfolding whole_name
whole_name-IsTestName none name h = absurd (cc h)
whole_name-IsTestName (some s) name h = elim (Bool-cases (text_eq (name_prefix s) [])) [
  | inl e ↦ absurd (ground arith)
  | inr e ↦
      let same : name_prefix s ≡ name = ground arith in
      subst IsTestName same
        (text_eq→ne (name_prefix s) [] e, unfold name_prefix in name_from-letters [] s)
]

find_name-IsTestName : (line name : Text) → find_name line ≡ some name → IsTestName name
unfolding find_name match_here
find_name-IsTestName [] name h = absurd (cc h)
find_name-IsTestName (c ∷ s) name h = elim (Option-cases (match_here (c ∷ s))) [
  | inl e ↦ find_name-IsTestName s name (ground arith)
  | inr (found, e) ↦
      let same : found ≡ name = ground arith in
      subst IsTestName same (whole_name-IsTestName (behind_keyword (strip_keyword (c ∷ s))) found e)
]

name_byte-not_space : (c : ℕ) → is_name_byte c ≡ true → is_space c ≡ false
unfolding is_name_byte is_space lower_byte
name_byte-not_space c h = ground arith

-- No letter has a space among its bytes.
letter-solid : (l : Text) → is_name_letter l ≡ true → All (λ c. is_space c ≡ false) l
unfolding is_name_letter is_space
letter-solid [] h = tt
letter-solid (c ∷ []) h = (name_byte-not_space c h, tt)
letter-solid (c ∷ d ∷ s) h = elim (Bool-cases (text_eq (c ∷ d ∷ s) long_s)) [
  | inl e ↦
      let same : c ∷ d ∷ s ≡ long_s = (text_eq_iff (c ∷ d ∷ s) long_s).0 e in
      subst (All (λ x. is_space x ≡ false)) (sym same) (refl, (refl, tt))
  | inr e ↦
      let k : text_eq (c ∷ d ∷ s) kelvin_sign ≡ true = ground (arith, e, h) in
      let same : c ∷ d ∷ s ≡ kelvin_sign = (text_eq_iff (c ∷ d ∷ s) kelvin_sign).0 k in
      subst (All (λ x. is_space x ≡ false)) (sym same) (refl, (refl, (refl, tt)))
]

joined-solid :
    (letters : List Text)
    → All (λ l. is_name_letter l ≡ true) letters
    → All (λ c. is_space c ≡ false) (joined letters)
joined-solid [] h = tt
joined-solid (l ∷ letters) h =
    All-append (λ c. is_space c ≡ false) l (joined letters) (letter-solid l h.0)
      (joined-solid letters h.1)

trim_right-All : (s : Text) → All (λ c. is_space c ≡ false) s → trim_right s ≡ s
unfolding trim_right keep_right
trim_right-All [] h = refl
trim_right-All (c ∷ []) h = rw h.0 refl
trim_right-All (c ∷ d ∷ s) h = rw (trim_right-All (d ∷ s) h.1) refl

trim_space-All : (s : Text) → All (λ c. is_space c ≡ false) s → trim_space s ≡ s
unfolding trim_space trim_left
trim_space-All [] h = refl
trim_space-All (c ∷ s) h = rw h.0 (trim_right-All (c ∷ s) h)

trim_space-IsTestName : (name : Text) → IsTestName name → trim_space name ≡ name
trim_space-IsTestName name (n, (letters, a, q)) =
    trim_space-All name (subst (All (λ c. is_space c ≡ false)) (sym q) (joined-solid letters a))

-- What a line adds.
found_here :
    (line name : Text) (found : Text)
    → find_name line ≡ some found
    → (trim_space found ≡ name) ↔ (find_name line ≡ some name)
found_here line name found e =
    let same = trim_space-IsTestName found (find_name-IsTestName line found e) in
    (λ h. cc (e, same, h), λ h. cc (e, same, h))

names_in_iff :
    (lines : List Text) (name : Text)
    → Among name (names_in lines)
      ↔ ((line : Text) × Among line lines × (find_name line ≡ some name))
unfolding names_in
names_in_iff [] name = (λ h. absurd h, λ (line, a, f). absurd a)
names_in_iff (l ∷ lines) name = (
  λ h. elim (Option-cases (find_name l)) [
    | inl e ↦
        let (line, a, f) =
          (names_in_iff lines name).0 (subst (λ o. Among name (kept o (names_in lines))) e h) in
        (line, inr a, f)
    | inr (found, e) ↦ elim (subst (λ o. Among name (kept o (names_in lines))) e h) [
      | inl same ↦ (l, inl refl, (found_here l name found e).0 same)
      | inr more ↦ let (line, a, f) = (names_in_iff lines name).0 more in (line, inr a, f)
    ]
  ],
  λ (line, a, f). elim a [
    | inl same ↦
        let here : find_name l ≡ some name = cc (same, f) in
        subst (λ o. Among name (kept o (names_in lines))) (sym here)
          (inl ((found_here l name name here).1 here))
    | inr later ↦
        let more = (names_in_iff lines name).1 (line, later, f) in
        elim (Option-cases (find_name l)) [
          | inl e ↦ subst (λ o. Among name (kept o (names_in lines))) (sym e) more
          | inr (found, e) ↦ subst (λ o. Among name (kept o (names_in lines))) (sym e) (inr more)
        ]
  ],
)

dedupe_strings-nil : (names : List Text) → dedupe_strings names ≡ [] → names ≡ []
dedupe_strings-nil [] h = refl
dedupe_strings-nil (n ∷ names) h =
    absurd (subst (Among n) h (((dedupe_strings-IsDistinct (n ∷ names)).1 n).1 (inl refl)))

-- The summary of the names is empty only without a name.
summary_iff :
    (names : List Text) (rest : Text)
    → ((if is_empty names then [] else codes "Failing tests: " ++ rest) ≡ [])
      ↔ (dedupe_strings names ≡ [])
unfolding is_empty dedupe_strings
summary_iff [] rest = (λ h. refl, λ h. refl)
summary_iff (n ∷ names) rest =
    (λ h. absurd (cc h), λ h. absurd (cc (dedupe_strings-nil (n ∷ names) h)))

-- The report names each failing test once; these are the names that the lines of the output give,
-- each one or more letters of the class of names; and the summary is empty only if there is none.
pub parse_test_output-IsReport :
    (output : Text)
    → let (summary, failing) = parse_test_output output in
      IsDistinct failing
      × ((name : Text)
          → Among name failing
            ↔ ((line : Text) × Among line (lines_from [] output) × (find_name line ≡ some name)))
      × ((name : Text) → Among name failing → IsTestName name)
      × ((summary ≡ []) ↔ (failing ≡ []))
unfolding parse_test_output
parse_test_output-IsReport output =
    let names = names_in (lines_from [] output) in
    let (distinct, same) = dedupe_strings-IsDistinct names in
    (
      distinct,
      λ name. (
        λ h. (names_in_iff (lines_from [] output) name).0 ((same name).0 h),
        λ h. (same name).1 ((names_in_iff (lines_from [] output) name).1 h),
      ),
      λ name h.
          let (line, a, f) = (names_in_iff (lines_from [] output) name).0 ((same name).0 h) in
          find_name-IsTestName line name f,
      summary_iff names (join (dedupe_strings names) (codes ", ")),
    )
