-- ===== src/Phys/Bits.antt =====
-- The bitmap of physmem.c is an array of bits: what `bitmap_set` and `bitmap_clear` do to each.
use kernix_os.Base.{
  ℕ, ◌-◌, ◌/◌, ◌%◌, ◌^◌, ◌<◌, bit_and, bit_or, ◌≡◌, refl, inl, inr, Bool, true, false, not, ◌&&◌,
  List, arith, ltb, ltb→lt, ◌==◌, if◌then◌else◌, Bool-cases, length, get_or, set, get_or-set_self,
  get_or-set_ne, length-set,
}
use kernix_os.Base.Bytes.{every_below, test_below}
use kernix_os.Phys.{bitmap_test, bitmap_set, bitmap_clear}

bit : ℕ → ℕ → Bool
bit b k = bit_and (b / 2 ^ k) 1 == 1

same : Bool → Bool → Bool
same true b = b
same false b = not b

same_sound : (a b : Bool) → same a b ≡ true → a ≡ b
unfolding same
same_sound a b h = ground arith

set_ok : ℕ → ℕ → ℕ → Bool
unfolding same bit
set_ok b k j =
    same (bit (bit_or b (2 ^ k)) j) (if k == j then true else bit b j) && ltb (bit_or b (2 ^ k)) 256

clear_ok : ℕ → ℕ → ℕ → Bool
unfolding same bit
clear_ok b k j =
    same (bit (bit_and b (255 - 2 ^ k)) j) (if k == j then false else bit b j)
    && ltb (bit_and b (255 - 2 ^ k)) 256

for_all : (ℕ → ℕ → ℕ → Bool) → Bool
unfolding every_below
for_all p = every_below 256 (λ b. every_below 8 (λ k. every_below 8 (λ j. p b k j)))

for_all_sound :
    (p : ℕ → ℕ → ℕ → Bool) (b k j : ℕ) → for_all p ≡ true → b < 256 → k < 8 → j < 8 → p b k j ≡ true
unfolding for_all
for_all_sound p b k j t hb hk hj =
    test_below 8 (p b k) j
      (test_below 8 (λ k'. every_below 8 (p b k')) k
        (test_below 256 (λ b'. every_below 8 (λ k'. every_below 8 (p b' k'))) b t hb) hk)
      hj

set_table : for_all set_ok ≡ true
unfolding for_all set_ok
set_table = refl

clear_table_checked : for_all clear_ok ≡ true
unfolding for_all clear_ok
clear_table_checked = refl

and_left : (a b : Bool) → (a && b) ≡ true → a ≡ true
and_left a b h = ground arith

and_right : (a b : Bool) → (a && b) ≡ true → b ≡ true
and_right a b h = ground arith

-- Every byte of the bitmap is a byte.
abbrev pub AreBytes : List ℕ → Type 0
AreBytes bitmap = (i : ℕ) → get_or bitmap i 0 < 256

module _ (b k j : ℕ) (hb : b < 256) (hk : k < 8) where
  bit-set : j < 8 → bit (bit_or b (2 ^ k)) j ≡ (if k == j then true else bit b j)
  unfolding set_ok
  bit-set hj = same_sound _ _ (and_left _ _ (for_all_sound set_ok b k j set_table hb hk hj))

  bit-clear : j < 8 → bit (bit_and b (255 - 2 ^ k)) j ≡ (if k == j then false else bit b j)
  unfolding clear_ok
  bit-clear hj =
      same_sound _ _ (and_left _ _ (for_all_sound clear_ok b k j clear_table_checked hb hk hj))

set_lt : (b k : ℕ) → b < 256 → k < 8 → bit_or b (2 ^ k) < 256
unfolding set_ok
set_lt b k hb hk =
    ltb→lt _ _ (and_right _ _ (for_all_sound set_ok b k 0 set_table hb hk (omega arith)))

clear_lt : (b k : ℕ) → b < 256 → k < 8 → bit_and b (255 - 2 ^ k) < 256
unfolding clear_ok
clear_lt b k hb hk =
    ltb→lt _ _
      (and_right _ _ (for_all_sound clear_ok b k 0 clear_table_checked hb hk (omega arith)))

module _ (bm : List ℕ) (bytes : AreBytes bm) (i : ℕ) (inside : i / 8 < length bm) where
  -- `bitmap_set` sets bit `i` and leaves every other bit.
  pub test-set :
      (j : ℕ) → bitmap_test (bitmap_set bm i) j ≡ (if i == j then true else bitmap_test bm j)
  unfolding bitmap_test bitmap_set bit
  test-set j = elim (Bool-cases (i / 8 == j / 8)) [
    | inl e ↦ ground (
      arith,
      get_or-set_self bm (i / 8) (bit_or (get_or bm (i / 8) 0) (2 ^ (i % 8))) 0 inside,
      bit-set (get_or bm (i / 8) 0) (i % 8) (j % 8) (bytes (i / 8)) (omega arith) (omega arith),
    )
    | inr e ↦
        ground
          (arith, get_or-set_ne bm (i / 8) (j / 8) (bit_or (get_or bm (i / 8) 0) (2 ^ (i % 8))) 0)
  ]

  -- `bitmap_clear` clears bit `i` and leaves every other bit.
  pub test-clear :
      (j : ℕ) → bitmap_test (bitmap_clear bm i) j ≡ (if i == j then false else bitmap_test bm j)
  unfolding bitmap_test bitmap_clear bit
  test-clear j = elim (Bool-cases (i / 8 == j / 8)) [
    | inl e ↦ ground (
      arith,
      get_or-set_self bm (i / 8) (bit_and (get_or bm (i / 8) 0) (255 - 2 ^ (i % 8))) 0 inside,
      bit-clear (get_or bm (i / 8) 0) (i % 8) (j % 8) (bytes (i / 8)) (omega arith) (omega arith),
    )
    | inr e ↦ ground (
      arith,
      get_or-set_ne bm (i / 8) (j / 8) (bit_and (get_or bm (i / 8) 0) (255 - 2 ^ (i % 8))) 0,
    )
  ]

  set-AreBytes : (v : ℕ) → v < 256 → AreBytes (set bm (i / 8) v)
  set-AreBytes v hv j = elim (Bool-cases (i / 8 == j)) [
    | inl e ↦ ground (arith, get_or-set_self bm (i / 8) v 0 inside)
    | inr e ↦ ground (arith, get_or-set_ne bm (i / 8) j v 0, bytes j)
  ]

  pub bitmap_set-AreBytes : AreBytes (bitmap_set bm i)
  unfolding bitmap_set
  bitmap_set-AreBytes = set-AreBytes _ (set_lt _ _ (bytes (i / 8)) (omega arith))

  pub bitmap_clear-AreBytes : AreBytes (bitmap_clear bm i)
  unfolding bitmap_clear
  bitmap_clear-AreBytes = set-AreBytes _ (clear_lt _ _ (bytes (i / 8)) (omega arith))

pub length-bitmap_set : (bm : List ℕ) (i : ℕ) → length (bitmap_set bm i) ≡ length bm
unfolding bitmap_set
length-bitmap_set bm i = length-set bm (i / 8) _

pub length-bitmap_clear : (bm : List ℕ) (i : ℕ) → length (bitmap_clear bm i) ≡ length bm
unfolding bitmap_clear
length-bitmap_clear bm i = length-set bm (i / 8) _
