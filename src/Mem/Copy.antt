-- ===== src/Mem/Copy.antt =====
-- Copying and comparing in core/drivers/memory/mem.c. `memcpy` reads a word before it writes it.
use kernix_os.Base.{ℕ, zero, suc, ◌+◌, ◌-◌, ◌*◌, ◌/◌, ◌%◌, ◌^◌, ◌==◌, if◌then◌else◌, ◌≡◌, refl}
use kernix_os.Mem.{Memory, store_byte, move_up}

-- `*d32++ = *s32++`
pub copy_word : (d s : ℕ) → Memory → Memory
unfolding store_byte
copy_word d s mem =
    store_byte (d + 3) (mem (s + 3)) (
      store_byte (d + 2) (mem (s + 2))
        (store_byte (d + 1) (mem (s + 1)) (store_byte d (mem s) mem)))

pub copy_words : (n d s : ℕ) → Memory → Memory
unfolding copy_word
copy_words zero d s mem = mem
copy_words (suc n) d s mem = copy_words n (d + 4) (s + 4) (copy_word d s mem)

-- The words and the rest, from a destination on that is a multiple of 4
pub copy_aligned : (n d s : ℕ) → Memory → Memory
unfolding copy_words move_up
copy_aligned n d s mem =
    move_up (d + n / 4 * 4) (s + n / 4 * 4) 0 (n % 4) (copy_words (n / 4) d s mem)

-- The loop `while (n && ((uintptr_t)d & 3))`, and what follows it
pub memcpy : (d s n : ℕ) → Memory → Memory
unfolding store_byte copy_aligned
memcpy d s zero mem = copy_aligned 0 d s mem
memcpy d s (suc n) mem =
    let later = memcpy (d + 1) (s + 1) n (store_byte d (mem s) mem) in
    if d % 4 == 0 then copy_aligned (suc n) d s mem else later

-- The comparison from index `i` on with `n` bytes left; the difference is an `int`, here modulo 2 ^ 32.
pub compare_from : (a b i n : ℕ) → Memory → ℕ
compare_from a b i zero mem = 0
compare_from a b i (suc n) mem =
    let rest = compare_from a b (i + 1) n mem in
    if mem (a + i) == mem (b + i) then rest else (mem (a + i) + 2 ^ 32 - mem (b + i)) % 2 ^ 32

pub memcmp : (a b n : ℕ) → Memory → ℕ
unfolding compare_from
memcmp a b n mem = compare_from a b 0 n mem

-- Seven bytes from 11 to 22 are two single bytes, a word and a byte.
memcpy_moves : memcpy 22 11 7 (λ x. x) 28 ≡ 17
unfolding memcpy
memcpy_moves = refl

memcmp_differs : memcmp 1 3 2 (λ x. x) ≡ 2 ^ 32 - 2
unfolding memcmp
memcmp_differs = refl
