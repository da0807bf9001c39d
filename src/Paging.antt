-- ===== src/Paging.antt =====
-- The page tables of core/kernel/mem/paging/paging.c. A table is named by its physical address: the
-- higher-half offset `hpr->offset` only tells where that is read, and does not enter the model. `entries` are
-- the words of every physical page, tables or not. Not modelled: the invalidation of the processor's cache.
pub mod Bits
pub mod Room
pub mod Tree
pub mod Grow
pub mod Entry
pub mod Map
pub mod Region
mod Tests
use kernix_os.Base.{
  ℕ, zero, suc, ◌+◌, ◌-◌, ◌*◌, ◌/◌, ◌%◌, ◌^◌, bit_or, Bool, true, false, not, ◌&&◌, Option, none,
  some, ltb, ◌==◌, if◌then◌else◌, u64,
}
use kernix_os.Base.Panic.{Kernel, returns, panics, ◌>>=◌}
use kernix_os.Phys.{Physmem, page_size, physmem_alloc_to}

-- `kernel_pml4` as the physical address of the table, the entries of each table, and the allocator
pub record Paging : Type 0 where
  pub pml4 : ℕ
  pub entries : ℕ → ℕ → ℕ
  pub phys : Physmem

-- `x & 0x000FFFFFFFFFF000`
abbrev pub page_base : ℕ → ℕ
page_base x = x / page_size % 2 ^ 40 * page_size

-- `entry & PTE_PRESENT`
abbrev pub is_present : ℕ → Bool
is_present entry = entry % 2 == 1

-- `(virtual_addr >> 12) & 0x1FF` for level 0, and 9 bits higher for each further level
abbrev pub pt_index : ℕ → ℕ
pt_index v = v / 2 ^ 12 % 512

abbrev pub pd_index : ℕ → ℕ
pd_index v = v / 2 ^ 21 % 512

abbrev pub pdp_index : ℕ → ℕ
pdp_index v = v / 2 ^ 30 % 512

abbrev pub pml4_index : ℕ → ℕ
pml4_index v = v / 2 ^ 39 % 512

pub write_entry : (table index entry : ℕ) → (ℕ → ℕ → ℕ) → ℕ → ℕ → ℕ
write_entry table index entry entries t i = if t == table && i == index then entry else entries t i

-- `memset(table, 0, PAGE_SIZE)`
pub clear_table : (table : ℕ) → (ℕ → ℕ → ℕ) → ℕ → ℕ → ℕ
clear_table table entries t i = if t == table then 0 else entries t i

pub paging_init : (current_cr3 : ℕ) → Paging → Paging
paging_init current_cr3 s = record s { pml4 = page_base current_cr3 }

-- The new table at `addr`, which the allocator gave, for the entry that is not present
pub new_table :
    (table index : ℕ) → (entries : ℕ → ℕ → ℕ) → (pml4 : ℕ) → ℕ × Physmem → Kernel (ℕ × Paging)
unfolding write_entry clear_table
new_table table index entries pml4 (addr, phys) =
    if addr == 0
    then panics
    else returns (
      addr,
      record {
        pml4 = pml4;
        entries = clear_table addr (write_entry table index (page_base addr + 3) entries);
        phys = phys;
      },
    )

-- One level of `paging_map_page`: the table that the entry names, made if it is not present
pub descend : (table index : ℕ) → Paging → Kernel (ℕ × Paging)
unfolding new_table
descend table index s =
    if not (is_present (s.entries table index))
    then physmem_alloc_to 1 s.phys >>= new_table table index s.entries s.pml4
    else returns (page_base (s.entries table index), s)

pub paging_map_page : (virtual_addr physical_addr flags : ℕ) → Paging → Kernel Paging
unfolding descend write_entry
paging_map_page virtual_addr physical_addr flags s =
    descend s.pml4 (pml4_index virtual_addr) s >>= λ (pdpt, s1).
    descend pdpt (pdp_index virtual_addr) s1 >>= λ (pd, s2).
    descend pd (pd_index virtual_addr) s2 >>= λ (pt, s3). returns (record s3 {
      entries =
          write_entry pt (pt_index virtual_addr) (bit_or (page_base physical_addr) flags)
            s3.entries;
    })

-- The table that an entry names, `none` if it is not present
abbrev pub next_table : (entries : ℕ → ℕ → ℕ) (index table : ℕ) → Option ℕ
next_table entries index table =
    if is_present (entries table index) then some (page_base (entries table index)) else none

-- A walk by the indices from the root: the last of the list is the first one followed.
pub is_page_mapped : ℕ → Paging → Bool
is_page_mapped virtual_addr s =
    let pdpt = page_base (s.entries s.pml4 (pml4_index virtual_addr)) in
    let pd = page_base (s.entries pdpt (pdp_index virtual_addr)) in
    let pt = page_base (s.entries pd (pd_index virtual_addr)) in
    if not (is_present (s.entries s.pml4 (pml4_index virtual_addr)))
    then false
    else if not (is_present (s.entries pdpt (pdp_index virtual_addr)))
    then false
    else if not (is_present (s.entries pd (pd_index virtual_addr)))
    then false
    else is_present (s.entries pt (pt_index virtual_addr))

-- The loop of `map_region`, from frame `i` on with `frames` left
pub map_frames : (frames i phys virt : ℕ) → Paging → Kernel Paging
map_frames zero i phys virt s = returns s
map_frames (suc frames) i phys virt s =
    paging_map_page (u64 (virt + i * page_size)) (u64 (phys + i * page_size)) 3 s
    >>= map_frames frames (i + 1) phys virt

-- The page table entry of a mapped address
pub entry_of : ℕ → Paging → ℕ
entry_of virtual_addr s =
    let pdpt = page_base (s.entries s.pml4 (pml4_index virtual_addr)) in
    let pd = page_base (s.entries pdpt (pdp_index virtual_addr)) in
    let pt = page_base (s.entries pd (pd_index virtual_addr)) in
    s.entries pt (pt_index virtual_addr)

-- A word whose byte `k` is cleared
abbrev pub zero_byte : (k word : ℕ) → ℕ
zero_byte k word = word - word / 256 ^ k % 256 * 256 ^ k

-- Byte after byte of `memset((u64 *)virt, 0, size)`, through the tables as they are by then; the page fault
-- at an address that is not mapped is a panic.
pub clear_bytes : (size virt : ℕ) → Paging → Kernel Paging
unfolding is_page_mapped entry_of
clear_bytes zero virt s = returns s
clear_bytes (suc size) virt s =
    let page = page_base (entry_of virt s) in
    let cleared = record s {
      entries = λ f i.
          if f == page && i == virt % page_size / 8
          then zero_byte (virt % 8) (s.entries f i)
          else s.entries f i;
    } in
    let rest = clear_bytes size (u64 (virt + 1)) cleared in
    if not (is_page_mapped virt s) then panics else rest

pub map_region : (phys virt size : ℕ) → Paging → Kernel Paging
unfolding map_frames clear_bytes
map_region phys virt size s = map_frames (size / page_size) 0 phys virt s >>= clear_bytes size virt

pub map_allocated : (virt size : ℕ) → Paging → ℕ × Physmem → Kernel (ℕ × Paging)
map_allocated virt size s (addr, phys) =
    if addr == 0
    then panics
    else map_region addr virt size (record s { phys = phys }) >>= λ s'. returns (addr, s')

pub map_region_alloc : (virt size : ℕ) → Paging → Kernel (ℕ × Paging)
unfolding map_allocated
map_region_alloc virt size s =
    physmem_alloc_to (size / page_size) s.phys >>= map_allocated virt size s

-- The loop of `map_user_space_region`; `start` is ULIME_START.
pub map_user_pages : (pages i start phys_start : ℕ) → Paging → Kernel Paging
unfolding is_page_mapped
map_user_pages zero i start phys_start s = returns s
map_user_pages (suc pages) i start phys_start s =
    let virt = u64 (start + i * page_size) in
    (if not (is_page_mapped virt s)
      then paging_map_page virt (u64 (phys_start + i * page_size)) 3 s
      else returns s)
    >>= map_user_pages pages (i + 1) start phys_start

pub map_user_space_region : (start phys_start size : ℕ) → Paging → Kernel Paging
unfolding map_user_pages
map_user_space_region start phys_start size s =
    if not (start % page_size == 0)
    then panics
    else if not (phys_start % page_size == 0)
    then panics
    else map_user_pages (u64 (size + page_size - 1) / page_size) 0 start phys_start s
