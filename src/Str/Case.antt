-- ===== src/Str/Case.antt =====
-- Changing the case of letters in common/string/string.c, and writing hexadecimal digits. The result is
-- the bytes that stand in the buffer where the string was: `str_to_upper` makes a blank the byte 0.
use kernix_os.Base.{
  ℕ, zero, suc, ◌+◌, ◌-◌, ◌/◌, ◌%◌, ◌^◌, bit_and, bit_or, Bool, true, false, ◌&&◌, List, [], ◌∷◌,
  ◌++◌, ltb, ◌==◌, if◌then◌else◌, ◌≡◌, refl,
}
use kernix_os.Str.{str_append}

pub str_to_upper : List ℕ → List ℕ
str_to_upper [] = []
str_to_upper (c ∷ cs) = bit_and c 0xDF ∷ str_to_upper cs

pub str_to_lower : List ℕ → List ℕ
str_to_lower [] = []
str_to_lower (c ∷ cs) = bit_or c 0x20 ∷ str_to_lower cs

abbrev pub is_none : List ℕ → Bool
is_none [] = true
is_none (c ∷ cs) = false

-- The digits from place `shift - 1` down, behind those written so far
pub add_hex : (shift number : ℕ) → List ℕ → List ℕ
add_hex zero number buffer = buffer
add_hex (suc shift) number buffer =
    let digit = number / 16 ^ shift % 16 in
    let char = if ltb digit 10 then 48 + digit else 97 + (digit - 10) in
    add_hex shift number (if (digit == 0) && is_none buffer then buffer else buffer ++ (char ∷ []))

pub str_append_hex : List ℕ → ℕ → List ℕ
unfolding add_hex
str_append_hex destination number =
    str_append destination (if number == 0 then 48 ∷ [] else add_hex 16 number [])

-- `a b` becomes `A`, NUL, `B`.
str_to_upper_cuts : str_to_upper (97 ∷ 32 ∷ 98 ∷ []) ≡ 65 ∷ 0 ∷ 66 ∷ []
unfolding str_to_upper
str_to_upper_cuts = refl
