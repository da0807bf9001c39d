-- ===== src/Str/Trim.antt =====
-- Trimming, reversing and printing of an `int` in common/string/string.c.
use kernix_os.Base.{
  ℕ, zero, suc, ◌+◌, ◌-◌, ◌/◌, ◌%◌, ◌^◌, bit_xor, Bool, ◌||◌, List, [], ◌∷◌, ◌++◌, length, get_or,
  set, take, ltb, leb, ◌==◌, if◌then◌else◌, ◌≡◌, refl,
}

-- A blank, a tab or a new line
pub is_blank : ℕ → Bool
is_blank c = (c == 32) || (c == 9) || (c == 10)

pub trim_start : List ℕ → List ℕ
unfolding is_blank
trim_start [] = []
trim_start (c ∷ cs) = let rest = trim_start cs in if is_blank c then rest else c ∷ cs

-- The last character that `str_trim` keeps, from index `e` down
pub trim_end : List ℕ → ℕ → ℕ
unfolding is_blank
trim_end s zero = zero
trim_end s (suc e) =
    let before = trim_end s e in if is_blank (get_or s (suc e) 0) then before else suc e

pub str_trim : List ℕ → List ℕ
unfolding trim_start trim_end
str_trim s =
    let t = trim_start s in if length t == 0 then [] else take (trim_end t (length t - 1) + 1) t

-- `*a ^= *b; *b ^= *a; *a ^= *b;` for the characters at `lo` and `hi`
pub swap_xor : (lo hi : ℕ) → List ℕ → List ℕ
swap_xor lo hi s =
    let a = bit_xor (get_or s lo 0) (get_or s hi 0) in
    let b = bit_xor (get_or s hi 0) a in set (set (set s lo a) hi b) lo (bit_xor a b)

-- The loop of `str_reverse`: the two ends are closer after each round, so that one for each character is
-- enough.
pub reverse_from : (rounds lo hi : ℕ) → List ℕ → List ℕ
unfolding swap_xor
reverse_from zero lo hi s = s
reverse_from (suc rounds) lo hi s =
    let rest = reverse_from rounds (lo + 1) (hi - 1) (swap_xor lo hi s) in
    if ltb lo hi then rest else s

pub str_reverse : List ℕ → List ℕ
unfolding reverse_from
str_reverse s = reverse_from (length s) 0 (length s - 1) s

-- The digits of a number, the lowest first; an `int` has at most ten.
pub low_digits : (fuel value : ℕ) → List ℕ
low_digits zero value = []
low_digits (suc fuel) value =
    let higher = low_digits fuel (value / 10) in
    (48 + value % 10) ∷ (if value / 10 == 0 then [] else higher)

-- An `int` in two's complement that is not - 2 ^ 31, whose negation C leaves undefined
pub str_from_int : ℕ → List ℕ
unfolding low_digits str_reverse
str_from_int value =
    if leb (2 ^ 31) value
    then str_reverse (low_digits 10 (2 ^ 32 - value) ++ (45 ∷ []))
    else str_reverse (low_digits 10 value)

str_trim_cuts : str_trim (32 ∷ 97 ∷ 32 ∷ 98 ∷ 10 ∷ 9 ∷ []) ≡ 97 ∷ 32 ∷ 98 ∷ []
unfolding str_trim
str_trim_cuts = refl

str_reverse_turns : str_reverse (97 ∷ 98 ∷ 99 ∷ 100 ∷ []) ≡ 100 ∷ 99 ∷ 98 ∷ 97 ∷ []
unfolding str_reverse
str_reverse_turns = refl

str_from_int_minus : str_from_int (2 ^ 32 - 120) ≡ 45 ∷ 49 ∷ 50 ∷ 48 ∷ []
unfolding str_from_int
str_from_int_minus = refl
