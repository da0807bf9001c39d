-- ===== src/Str/Tests.antt =====
-- The strings `ab` and `abc`, and the number 4096.
use kernix_os.Base.{ℕ, ◌≡◌, ◌≢◌, List, [], ◌∷◌, arith}
use kernix_os.Str.{str_append_uint, str_to_int}
use kernix_os.Str.Number.{str_to_int-str_append_uint}

abbrev ab : List ℕ
ab = 97 ∷ 98 ∷ []

abbrev abc : List ℕ
abc = 97 ∷ 98 ∷ 99 ∷ []

str_to_int-str_append_uint_example : str_to_int (str_append_uint [] 4096) ≡ 4096
str_to_int-str_append_uint_example = str_to_int-str_append_uint 4096 (omega arith)

ab_ne : ab ≢ []
ab_ne e = cc
