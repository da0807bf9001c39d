-- ===== src/Mem.antt =====
-- The memory routines of core/drivers/memory/mem.c on a memory that gives the byte at each address. A word
-- is written as its four bytes, and `val` is one byte. A range does not pass the end of the address space.
pub mod Fill
pub mod Copy
mod Tests
use kernix_os.Base.{
  ℕ, zero, suc, ◌+◌, ◌-◌, ◌*◌, ◌/◌, ◌%◌, ◌^◌, Bool, true, false, List, [], ◌∷◌, ltb, ◌==◌,
  if◌then◌else◌,
}

abbrev pub Memory : Type 0
Memory = ℕ → ℕ

unfoldable pub store_byte : ℕ → ℕ → Memory → Memory
store_byte p val mem x = if x == p then val else mem x

pub store_word : ℕ → ℕ → Memory → Memory
unfolding store_byte
store_word p val mem =
    store_byte (p + 3) val (store_byte (p + 2) val (store_byte (p + 1) val (store_byte p val mem)))

-- `while (n--) *p++ = val;`
pub fill_bytes : (n p val : ℕ) → Memory → Memory
unfolding store_byte
fill_bytes zero p val mem = mem
fill_bytes (suc n) p val mem = fill_bytes n (p + 1) val (store_byte p val mem)

-- `while (n32--) *p32++ = val32;`
pub fill_words : (n p val : ℕ) → Memory → Memory
unfolding store_word
fill_words zero p val mem = mem
fill_words (suc n) p val mem = fill_words n (p + 4) val (store_word p val mem)

-- The words and the rest, from an address on that is a multiple of 4
pub fill_aligned : (n p val : ℕ) → Memory → Memory
unfolding fill_words fill_bytes
fill_aligned n p val mem = fill_bytes (n % 4) (p + n / 4 * 4) val (fill_words (n / 4) p val mem)

-- The loop `while (n && ((uintptr_t)p & 3))`, and what follows it
pub memset : (p val n : ℕ) → Memory → Memory
unfolding store_byte fill_aligned
memset p val zero mem = fill_aligned 0 p val mem
memset p val (suc n) mem =
    let later = memset (p + 1) val n (store_byte p val mem) in
    if p % 4 == 0 then fill_aligned (suc n) p val mem else later

-- The byte loops of `memmove`, up from index `i` with `n` bytes left, and down from index `n`
pub move_up : (d s i n : ℕ) → Memory → Memory
unfolding store_byte
move_up d s i zero mem = mem
move_up d s i (suc n) mem = move_up d s (i + 1) n (store_byte (d + i) (mem (s + i)) mem)

pub move_down : (d s n : ℕ) → Memory → Memory
unfolding store_byte
move_down d s zero mem = mem
move_down d s (suc n) mem = move_down d s n (store_byte (d + n) (mem (s + n)) mem)

pub memmove : (d s n : ℕ) → Memory → Memory
unfolding move_up move_down
memmove d s n mem = if ltb d s then move_up d s 0 n mem else move_down d s n mem
