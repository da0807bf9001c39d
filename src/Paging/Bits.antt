-- ===== src/Paging/Bits.antt =====
-- The lowest bit of a page table entry.
use Prim.Native.Nat.{max, bit_or-bitwise}
use kernix_os.Base.{ℕ, zero, suc, ◌+◌, ◌/◌, ◌%◌, ◌^◌, ◌<◌, bit_or, ◌≡◌, true, arith}
use kernix_os.Phys.{page_size}
use kernix_os.Paging.{page_base, is_present}

zero-bit_or : (b : ℕ) → bit_or 0 b ≡ b
zero-bit_or b = bit_or-bitwise 0 b

pub bit_or_odd : (a b : ℕ) → bit_or a b % 2 ≡ max (a % 2) (b % 2)
bit_or_odd zero b = omega (arith, zero-bit_or b)
bit_or_odd (suc a) b = omega (arith, bit_or-bitwise (suc a) b)

-- An entry for a page is present if its flags say so.
pub is_present-bit_or :
    (physical_addr flags : ℕ)
    → is_present flags ≡ true
    → is_present (bit_or (page_base physical_addr) flags) ≡ true
is_present-bit_or physical_addr flags h = ground (arith, bit_or_odd (page_base physical_addr) flags)

-- The entry for a new table names that table.
pub page_base-table :
    (addr : ℕ)
    → addr % page_size ≡ 0
    → addr / page_size < 2 ^ 40
    → page_base (page_base addr + 3) ≡ addr
page_base-table addr a s = omega arith
