-- ===== src/Mem/Fill.antt =====
-- What the routines write, and where.
use kernix_os.Base.{
  ℕ, zero, suc, ◌+◌, ◌-◌, ◌*◌, ◌/◌, ◌%◌, ◌≤◌, ◌<◌, ◌≡◌, ◌∙◌, ap, Bool, ◌&&◌, ltb, leb, ◌==◌,
  if◌then◌else◌, arith, Bool-cases, inl, inr,
}
use kernix_os.Mem.{
  Memory, store_byte, store_word, fill_bytes, fill_words, fill_aligned, memset, move_up, move_down,
  memmove,
}

abbrev pub inside : ℕ → ℕ → ℕ → Bool
inside p n x = leb p x && ltb x (p + n)

fill_bytes-inside :
    (n p val : ℕ) (mem : Memory) (x : ℕ)
    → fill_bytes n p val mem x ≡ (if inside p n x then val else mem x)
unfolding fill_bytes store_byte
fill_bytes-inside zero p val mem x = ground arith
fill_bytes-inside (suc n) p val mem x =
    fill_bytes-inside n (p + 1) val (store_byte p val mem) x ∙ ground arith

fill_words-inside :
    (n p val : ℕ) (mem : Memory) (x : ℕ)
    → fill_words n p val mem x ≡ (if inside p (n * 4) x then val else mem x)
unfolding fill_words store_word store_byte
fill_words-inside zero p val mem x = ground arith
fill_words-inside (suc n) p val mem x =
    fill_words-inside n (p + 4) val (store_word p val mem) x ∙ ground arith

fill_aligned-inside :
    (n p val : ℕ) (mem : Memory) (x : ℕ)
    → fill_aligned n p val mem x ≡ (if inside p n x then val else mem x)
unfolding fill_aligned
fill_aligned-inside n p val mem x =
    fill_bytes-inside (n % 4) (p + n / 4 * 4) val (fill_words (n / 4) p val mem) x
    ∙ ground (arith, fill_words-inside (n / 4) p val mem x)

-- `memset` writes the value to the `n` bytes from the address on, wherever that lies between words, and
-- to no other byte.
pub memset-inside :
    (p val n : ℕ) (mem : Memory) (x : ℕ)
    → memset p val n mem x ≡ (if inside p n x then val else mem x)
unfolding memset store_byte
memset-inside p val zero mem x = fill_aligned-inside 0 p val mem x
memset-inside p val (suc n) mem x = elim (Bool-cases (p % 4 == 0)) [
  | inl aligned ↦ rw aligned (fill_aligned-inside (suc n) p val mem x)
  | inr between ↦ rw between (memset-inside (p + 1) val n (store_byte p val mem) x ∙ ground arith)
]

move_up-copy :
    (d s i n : ℕ) (mem : Memory) (x : ℕ)
    → d < s
    → move_up d s i n mem x ≡ (if inside (d + i) n x then mem (x - d + s) else mem x)
unfolding move_up store_byte
move_up-copy d s i zero mem x lt = ground arith
move_up-copy d s i (suc n) mem x lt =
    move_up-copy d s (i + 1) n (store_byte (d + i) (mem (s + i)) mem) x lt
    ∙ elim (Bool-cases (x == d + i)) [
      | inl here ↦
          let from : x - d + s ≡ s + i = ground arith in
          let byte : mem (x - d + s) ≡ mem (s + i) = ap mem from in ground arith
      | inr other ↦ ground arith
    ]

move_down-copy :
    (d s n : ℕ) (mem : Memory) (x : ℕ)
    → s ≤ d
    → move_down d s n mem x ≡ (if inside d n x then mem (x - d + s) else mem x)
unfolding move_down store_byte
move_down-copy d s zero mem x le = ground arith
move_down-copy d s (suc n) mem x le =
    move_down-copy d s n (store_byte (d + n) (mem (s + n)) mem) x le
    ∙ elim (Bool-cases (x == d + n)) [
      | inl here ↦
          let from : x - d + s ≡ s + n = ground arith in
          let byte : mem (x - d + s) ≡ mem (s + n) = ap mem from in ground arith
      | inr other ↦ ground arith
    ]

-- `memmove` copies: whether the ranges overlap or not, the `n` bytes from `d` on become those that stood
-- from `s` on before, and no other byte changes.
pub memmove-copy :
    (d s n : ℕ) (mem : Memory) (x : ℕ)
    → memmove d s n mem x ≡ (if inside d n x then mem (x - d + s) else mem x)
unfolding memmove
memmove-copy d s n mem x = elim (Bool-cases (ltb d s)) [
  | inl up ↦ rw up (move_up-copy d s 0 n mem x (ground arith) ∙ ground arith)
  | inr down ↦ rw down (move_down-copy d s n mem x (ground arith))
]
