-- ===== src/Str/Compare.antt =====
-- The comparisons of strings decide what they are named for.
use kernix_os.Base.{
  ℕ, ◌<◌, ◌≡◌, refl, ◌≢◌, ◌∙◌, ap, sym, ◌↔◌, true, false, List, [], ◌∷◌, ◌++◌, ◌==◌, if◌then◌else◌,
  arith, Bool-cases, inl, inr,
}
use kernix_os.Str.{str_equals, str_starts_with, matches_at, str_contains}

-- A string: no byte before its end is NUL.
abbrev pub IsString : List ℕ → Type 0
IsString [] = Unit
IsString (c ∷ cs) = (0 < c) × IsString cs

str_equals-true :
    (first second : List ℕ)
    → IsString first
    → IsString second
    → str_equals first second ≡ true
    → first ≡ second
unfolding str_equals
str_equals-true [] [] f s e = refl
str_equals-true [] (d ∷ second) f s e = absurd (ground arith)
str_equals-true (c ∷ first) [] f s e = absurd (ground arith)
str_equals-true (c ∷ first) (d ∷ second) f s e =
    let same : c ≡ d = ground arith in
    let rest : str_equals first second ≡ true = ground arith in
    ap (λ x. x ∷ first) same ∙ ap (λ xs. d ∷ xs) (str_equals-true first second f.1 s.1 rest)

pub str_equals_self : (s : List ℕ) → str_equals s s ≡ true
unfolding str_equals
str_equals_self [] = refl
str_equals_self (c ∷ cs) = ground (arith, str_equals_self cs)

-- On two strings `str_equals` says whether they are equal.
pub str_equals_iff :
    (first second : List ℕ)
    → IsString first
    → IsString second
    → (str_equals first second ≡ true) ↔ (first ≡ second)
str_equals_iff first second f s =
    (str_equals-true first second f s, λ e. ap (str_equals first) (sym e) ∙ str_equals_self first)

matches_at-true :
    (temp sub : List ℕ) → matches_at temp sub ≡ true → (rest : List ℕ) × (temp ≡ sub ++ rest)
unfolding matches_at
matches_at-true temp [] e = (temp, refl)
matches_at-true [] (s ∷ sub) e = absurd (ground arith)
matches_at-true (c ∷ temp) (s ∷ sub) e =
    let same : c ≡ s = ground arith in
    let (rest, eq) = matches_at-true temp sub (ground arith) in
    (rest, ap (λ x. x ∷ temp) same ∙ ap (λ xs. s ∷ xs) eq)

matches_at-append : (sub rest : List ℕ) → matches_at (sub ++ rest) sub ≡ true
unfolding matches_at
matches_at-append [] rest = refl
matches_at-append (s ∷ sub) rest = ground (arith, matches_at-append sub rest)

starts-matches : (input prefix : List ℕ) → str_starts_with input prefix ≡ matches_at input prefix
unfolding str_starts_with matches_at
starts-matches input [] = refl
starts-matches [] (p ∷ prefix) = refl
starts-matches (c ∷ input) (p ∷ prefix) =
    ap (λ r. if c == p then r else false) (starts-matches input prefix)

-- `str_starts_with` says whether the prefix, followed by some rest, is the string.
pub str_starts_with_iff :
    (input prefix : List ℕ)
    → (str_starts_with input prefix ≡ true) ↔ ((rest : List ℕ) × (input ≡ prefix ++ rest))
str_starts_with_iff input prefix = (
  (λ e. matches_at-true input prefix (sym (starts-matches input prefix) ∙ e)),
  λ (rest, e).
      starts-matches input prefix ∙ ap (λ x. matches_at x prefix) e ∙ matches_at-append prefix rest,
)

-- The string is the substring between two others.
abbrev pub Within : List ℕ → List ℕ → Type 0
Within sub input = (before : List ℕ) × (after : List ℕ) × (input ≡ before ++ sub ++ after)

contains-true : (input sub : List ℕ) → str_contains input sub ≡ true → Within sub input
unfolding str_contains
contains-true [] sub e = absurd (ground arith)
contains-true (c ∷ input) sub e = elim (Bool-cases (matches_at (c ∷ input) sub)) [
  | inl here ↦ let (rest, eq) = matches_at-true (c ∷ input) sub here in ([], rest, eq)
  | inr further ↦
      let (before, after, eq) = contains-true input sub (ground arith) in
      (c ∷ before, after, ap (λ xs. c ∷ xs) eq)
]

contains-within :
    (before : List ℕ) (s : ℕ) (sub after : List ℕ)
    → str_contains (before ++ (s ∷ sub) ++ after) (s ∷ sub) ≡ true
unfolding str_contains
contains-within [] s sub after = ground (arith, matches_at-append (s ∷ sub) after)
contains-within (b ∷ before) s sub after = ground (arith, contains-within before s sub after)

-- For a substring that is not empty, `str_contains` says whether it stands somewhere in the string.
pub str_contains_iff :
    (input sub : List ℕ) → sub ≢ [] → (str_contains input sub ≡ true) ↔ Within sub input
str_contains_iff input [] ne = absurd (ne refl)
str_contains_iff input (s ∷ sub) ne = (
  contains-true input (s ∷ sub),
  λ (before, after, e). ap (λ x. str_contains x (s ∷ sub)) e ∙ contains-within before s sub after,
)
