-- ===== src/Shell/Commands/Find.antt =====
-- `console_find_cmd` finds the first command of a name.
use kernix_os.Base.{
  ℕ, zero, suc, ◌+◌, ◌<◌, true, false, Bool-cases, inl, inr, Option, none, some, List, [], ◌∷◌,
  get_elem?, ◌≡◌, ◌≢◌, refl, sym, ap, arith,
}
use kernix_os.Shell.Commands.{same_name, console_find_cmd}

same_name-true : (a b : List ℕ) → same_name a b ≡ true → a ≡ b
unfolding same_name
same_name-true [] [] e = refl
same_name-true [] (d ∷ b) e = cc
same_name-true (c ∷ a) [] e = cc
same_name-true (c ∷ a) (d ∷ b) e = ground (arith, same_name-true a b)

same_name_self : (a : List ℕ) → same_name a a ≡ true
unfolding same_name
same_name_self [] = refl
same_name_self (c ∷ a) = ground (arith, same_name_self a)

-- What is found among the commands from the `i`-th on
abbrev pub FirstCommand : List ℕ → ℕ → List (Option (List ℕ)) → Option ℕ → Type 0
FirstCommand wanted i names none = (j : ℕ) → get_elem? names j ≢ some (some wanted)
FirstCommand wanted i names (some k) =
    (j : ℕ) × (k ≡ i + j)
    × (get_elem? names j ≡ some (some wanted))
    × ((m : ℕ) → m < j → get_elem? names m ≢ some (some wanted))

from_some : Option (List ℕ) → Option (Option (List ℕ)) → Option (List ℕ)
from_some d none = d
from_some d (some x) = x

not_here :
    (wanted : List ℕ) (name : Option (List ℕ)) (names : List (Option (List ℕ))) (m : ℕ)
    → name ≢ some wanted
    → ((n : ℕ) → suc n ≡ m → get_elem? names n ≢ some (some wanted))
    → get_elem? (name ∷ names) m ≢ some (some wanted)
unfolding from_some
not_here wanted name names zero ne f e = ne (ap (from_some none) e)
not_here wanted name names (suc n) ne f e = f n refl e

later :
    (wanted : List ℕ) (i : ℕ) (name : Option (List ℕ)) (names : List (Option (List ℕ)))
    (r : Option ℕ)
    → name ≢ some wanted
    → FirstCommand wanted (i + 1) names r
    → FirstCommand wanted i (name ∷ names) r
later wanted i name names none ne f = λ j. not_here wanted name names j ne (λ n _. f n)
later wanted i name names (some k) ne (j, e, at, first) =
    (suc j, omega arith, at, λ m h. not_here wanted name names m ne (λ n e'. first n (omega arith)))

find-First :
    (wanted : List ℕ) (i : ℕ) (names : List (Option (List ℕ)))
    → FirstCommand wanted i names (console_find_cmd wanted i names)
unfolding console_find_cmd
find-First wanted i [] = λ j e. cc
find-First wanted i (none ∷ names) =
    later wanted i none names (console_find_cmd wanted (i + 1) names) (λ e. cc)
      (find-First wanted (i + 1) names)
find-First wanted i (some name ∷ names) = elim (Bool-cases (same_name wanted name)) [
  | inl e ↦ rw e (
    0,
    omega arith,
    ap (λ x. some (some x)) (sym (same_name-true wanted name e)),
    λ m h. absurd (omega arith),
  )
  | inr e ↦
      let differs : some name ≢ some wanted = λ e'. differ name e e' in
      rw e (
        later wanted i (some name) names (console_find_cmd wanted (i + 1) names) differs
          (find-First wanted (i + 1) names))
]
  where
    differ : (n : List ℕ) → same_name wanted n ≡ false → some n ≢ some wanted
    differ n e e' =
        let same : n ≡ wanted = cc in
        ground (arith, same_name_self wanted, ap (same_name wanted) same)

-- `console_find_cmd` gives the first command whose name is the one looked for, and none only if no
-- command has it.
pub console_find_cmd-First :
    (wanted : List ℕ) (names : List (Option (List ℕ)))
    → FirstCommand wanted 0 names (console_find_cmd wanted 0 names)
console_find_cmd-First wanted names = find-First wanted 0 names
