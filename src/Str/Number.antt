-- ===== src/Str/Number.antt =====
-- A number that is written in decimal digits is read back.
use kernix_os.Base.{
  ℕ, zero, suc, ◌+◌, ◌-◌, ◌*◌, ◌/◌, ◌%◌, ◌^◌, ◌≤◌, ◌<◌, ◌≡◌, refl, ◌∙◌, false, ◌||◌, List, [], ◌∷◌,
  ◌++◌, leb, ◌==◌, arith, Bool-cases, inl, inr, u32,
}
use kernix_os.Str.{
  str_append, add_digits, str_append_uint, skip_blanks, read_digits, read_signed, str_to_int,
}

abbrev pub AllDigits : List ℕ → Type 0
AllDigits [] = Unit
AllDigits (c ∷ cs) = ((48 ≤ c) × (c ≤ 57)) × AllDigits cs

read_digits-append :
    (acc : ℕ) (xs : List ℕ) (d : ℕ)
    → AllDigits xs
    → d < 10
    → read_digits acc (xs ++ ((48 + d) ∷ [])) ≡ u32 (read_digits acc xs * 10 + d)
unfolding read_digits
read_digits-append acc [] d a lt = ground arith
read_digits-append acc (x ∷ xs) d a lt =
    ground (arith, a.0, read_digits-append (u32 (acc * 10 + (x - 48))) xs d a.1 lt)

AllDigits-append : (xs ys : List ℕ) → AllDigits xs → AllDigits ys → AllDigits (xs ++ ys)
AllDigits-append [] ys a b = b
AllDigits-append (x ∷ xs) ys a b = (a.0, AllDigits-append xs ys a.1 b)

add_digits-AllDigits : (fuel number : ℕ) → AllDigits (add_digits fuel [] number)
unfolding add_digits
add_digits-AllDigits zero number = tt
add_digits-AllDigits (suc fuel) number = elim (Bool-cases (leb 10 number)) [
  | inl more ↦ rw more (
      AllDigits-append (add_digits fuel [] (number / 10)) _
        (add_digits-AllDigits fuel (number / 10)) ((omega arith, omega arith), tt))
  | inr last ↦ rw last ((omega arith, omega arith), tt)
]

-- the numbers of at most so many digits
abbrev ten_to : ℕ → ℕ
ten_to zero = 1
ten_to (suc n) = 10 * ten_to n

add_digits-value :
    (fuel number : ℕ)
    → number < ten_to fuel
    → number < 2 ^ 32
    → read_digits 0 (add_digits fuel [] number) ≡ number
unfolding add_digits read_digits
add_digits-value zero number lt small = omega arith
add_digits-value (suc fuel) number lt small =
    let higher = add_digits fuel [] (number / 10) in
    elim (Bool-cases (leb 10 number)) [
      | inl more ↦ rw more (
          read_digits-append 0 higher (number % 10) (add_digits-AllDigits fuel (number / 10))
            (omega arith)
          ∙ ground (arith, add_digits-value fuel (number / 10) (omega arith) (omega arith)))
      | inr last ↦ rw last (ground arith)
    ]

-- A string of digits has neither blanks nor a sign at its start.
str_to_int-digits : (xs : List ℕ) → AllDigits xs → str_to_int xs ≡ read_digits 0 xs
unfolding str_to_int skip_blanks read_signed read_digits
str_to_int-digits [] a = refl
str_to_int-digits (x ∷ xs) a =
    let (blank, minus, plus) : (((x == 32) || (x == 9)) ≡ false)
        × ((x == 45) ≡ false)
        × ((x == 43) ≡ false) =
      (ground (arith, a.0), ground (arith, a.0), ground (arith, a.0)) in
    rw (blank, minus, plus) refl

-- What `str_append_uint` writes to an empty string, `str_to_int` reads back, for every `u32`; as an
-- `int` it is negative from 2 ^ 31 on.
pub str_to_int-str_append_uint :
    (number : ℕ) → number < 2 ^ 32 → str_to_int (str_append_uint [] number) ≡ number
unfolding str_append_uint str_append read_digits
str_to_int-str_append_uint number small = elim (Bool-cases (number == 0)) [
  | inl zero_number ↦
      rw zero_number (str_to_int-digits (48 ∷ []) ((omega arith, omega arith), tt) ∙ ground arith)
  | inr positive ↦ rw positive (
      str_to_int-digits (add_digits 10 [] number) (add_digits-AllDigits 10 number)
      ∙ add_digits-value 10 number (omega arith) small)
]
