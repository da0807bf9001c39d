-- ===== src/Str.antt =====
-- Strings of common/string/string.c. A `char *` that is not NULL is the list of its bytes before the
-- terminating NUL; the buffers are large enough, as the source assumes. A byte compares as unsigned,
-- which for the characters tested makes no difference.
pub mod Compare
pub mod Number
pub mod Case
pub mod Trim
mod Tests
use kernix_os.Base.{
  ℕ, zero, suc, ◌+◌, ◌-◌, ◌*◌, ◌/◌, ◌%◌, ◌^◌, Bool, true, false, not, ◌&&◌, ◌||◌, List, [], ◌∷◌,
  ◌++◌, leb, ◌==◌, if◌then◌else◌, u32,
}

-- Both pointers move to the end of the destination, then the source is copied.
pub str_append : List ℕ → List ℕ → List ℕ
str_append [] source = source
str_append (c ∷ destination) source = c ∷ str_append destination source

-- The digits of `number` behind `buffer`; the recursion is as deep as there are digits.
pub add_digits : ℕ → List ℕ → ℕ → List ℕ
add_digits zero buffer number = buffer
add_digits (suc fuel) buffer number =
    let higher = add_digits fuel buffer (number / 10) in
    (if leb 10 number then higher else buffer) ++ ((48 + number % 10) ∷ [])

-- A `u32` has at most ten digits.
pub str_append_uint : List ℕ → ℕ → List ℕ
unfolding add_digits str_append
str_append_uint destination number =
    let digits = if number == 0 then 48 ∷ [] else add_digits 10 [] number in
    str_append destination digits

unfoldable pub str_len : List ℕ → ℕ
str_len [] = 0
str_len (c ∷ cs) = str_len cs + 1

pub str_starts_with : List ℕ → List ℕ → Bool
str_starts_with input [] = true
str_starts_with [] (p ∷ prefix) = false
str_starts_with (c ∷ input) (p ∷ prefix) =
    let rest = str_starts_with input prefix in if c == p then rest else false

-- The loop stops at the end of either string or at a difference, and the bytes there are compared;
-- at an end that byte is NUL, which no string holds before its end.
unfoldable pub str_equals : List ℕ → List ℕ → Bool
str_equals [] [] = true
str_equals [] (d ∷ second) = 0 == d
str_equals (c ∷ first) [] = c == 0
str_equals (c ∷ first) (d ∷ second) =
    let rest = str_equals first second in if c == d then rest else false

-- The search of `str_contains` at one start: the inner loop ran to the end of `substring`.
pub matches_at : List ℕ → List ℕ → Bool
matches_at temp [] = true
matches_at [] (s ∷ sub) = false
matches_at (c ∷ temp) (s ∷ sub) = let rest = matches_at temp sub in if c == s then rest else false

pub str_contains : List ℕ → List ℕ → Bool
unfolding matches_at
str_contains [] substring = false
str_contains (c ∷ input) substring =
    let rest = str_contains input substring in
    if matches_at (c ∷ input) substring then true else rest

pub skip_blanks : List ℕ → List ℕ
skip_blanks [] = []
skip_blanks (c ∷ cs) = let rest = skip_blanks cs in if (c == 32) || (c == 9) then rest else c ∷ cs

-- `int` arithmetic, on two's complement
pub read_digits : ℕ → List ℕ → ℕ
read_digits result [] = result
read_digits result (c ∷ cs) =
    let rest = read_digits (u32 (result * 10 + (c - 48))) cs in
    if leb 48 c && leb c 57 then rest else result

abbrev pub negate : ℕ → ℕ
negate n = u32 (2 ^ 32 - n)

pub read_signed : List ℕ → ℕ
unfolding read_digits
read_signed [] = 0
read_signed (c ∷ cs) =
    if c == 45
    then negate (read_digits 0 cs)
    else if c == 43
    then read_digits 0 cs
    else read_digits 0 (c ∷ cs)

pub str_to_int : List ℕ → ℕ
unfolding skip_blanks read_signed
str_to_int input = read_signed (skip_blanks input)
