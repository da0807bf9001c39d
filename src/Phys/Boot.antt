-- ===== src/Phys/Boot.antt =====
-- `physmem_init`: how the bitmap is built from the memory map that the boot loader hands over.
pub mod Aligned
pub mod Covered
mod Tests
use kernix_os.Base.{
  ℕ, zero, suc, ◌+◌, ◌-◌, ◌*◌, ◌/◌, ◌^◌, Bool, true, false, not, ◌&&◌, ◌||◌, Option, none, some,
  List, [], ◌∷◌, ltb, leb, ◌==◌, if◌then◌else◌, replicate, u64,
}
use kernix_os.Base.Panic.{Kernel, returns, panics, ◌>>=◌}
use kernix_os.Phys.{
  PageFrame, Physmem, page_size, mark_free, mark_kernel, mark_each, clamp_end,
  physmem_addr_mark_used,
}

-- The memory types that physmem.c tells apart.
pub data MemmapType : Type 0 where
  usable bootloader_reclaimable other : MemmapType

abbrev pub is_usable : MemmapType → Bool
is_usable usable = true
is_usable _ = false

-- `struct limine_memmap_entry`, as far as it is read
pub record MemmapEntry : Type 0 where
  pub base : ℕ
  pub length : ℕ
  pub kind : MemmapType

-- One round of the loop of `physmem_addr_mark`.
pub mark_entry : MemmapEntry → Physmem → Physmem
mark_entry e p =
    let frame_start = e.base / page_size in
    let frame_end = clamp_end p.total (u64 (e.base + e.length) / page_size) in
    let m = (if is_usable e.kind then mark_free else mark_kernel) in
    if leb p.total frame_start then p else mark_each m (frame_end - frame_start) frame_start p

pub mark_entries : List MemmapEntry → Physmem → Physmem
unfolding mark_entry
mark_entries [] p = p
mark_entries (e ∷ es) p = mark_entries es (mark_entry e p)

pub physmem_addr_mark : List MemmapEntry → Physmem → Kernel Physmem
physmem_addr_mark es p = if not p.tracked then panics else returns (mark_entries es p)

-- One pass of `physmem_addr_get_tracking`: the first usable entry of at least `size` bytes whose base
-- is not below `floor`.
pub first_entry : (floor size : ℕ) → List MemmapEntry → Option ℕ
first_entry floor size [] = none
first_entry floor size (e ∷ es) =
    if is_usable e.kind && leb size e.length && leb floor e.base
    then some e.base
    else first_entry floor size es

abbrev pub or_else : Option ℕ → Option ℕ → Option ℕ
or_else none b = b
or_else (some a) b = some a

pub base_or_null : Option ℕ → ℕ
base_or_null none = 0
base_or_null (some base) = base

-- The three passes; 0 stands for NULL.
pub physmem_addr_get_tracking : ℕ → List MemmapEntry → ℕ
unfolding first_entry base_or_null
physmem_addr_get_tracking size es = base_or_null (
    or_else (first_entry 0x1000000 size es)
      (or_else (first_entry 0x100000 size es) (first_entry 0 size es)))

pub used_bytes_to_frame_count : ℕ → ℕ
used_bytes_to_frame_count size = u64 (size + page_size - 1) / page_size

-- `if (end_addr > physmem_addr_highest) physmem_addr_highest = end_addr;`, for the two types counted
raise : MemmapType → ℕ → ℕ → ℕ
raise other end_addr highest = highest
raise _ end_addr highest = if ltb highest end_addr then end_addr else highest

pub highest_addr : ℕ → List MemmapEntry → ℕ
unfolding raise
highest_addr highest [] = highest
highest_addr highest (e ∷ es) = highest_addr (raise e.kind (u64 (e.base + e.length)) highest) es

pub frames_of : (ℕ → PageFrame) → ℕ → ℕ → List PageFrame
frames_of memory zero at = []
frames_of memory (suc n) at = memory at ∷ frames_of memory n (at + 1)

abbrev pub bitmap_size : ℕ → ℕ
bitmap_size total = (total + 7) / 8

abbrev pub table_bytes : ℕ → ℕ
table_bytes total = total * 8 + bitmap_size total

-- `memory` is what the page that becomes the frame table held before; only the bitmap is cleared.
pub blank : (ℕ → PageFrame) → ℕ → Physmem
unfolding frames_of
blank memory total = record {
  tracked = true;
  pageframes = frames_of memory total 0;
  total = total;
  bitmap = replicate (bitmap_size total) 0xFF;
}

pub physmem_init : (ℕ → PageFrame) → List MemmapEntry → Kernel Physmem
unfolding highest_addr blank
physmem_init memory es =
    let total = highest_addr 0 es / page_size in
    let addr = physmem_addr_get_tracking (table_bytes total) es in
    if addr == 0
    then panics
    else physmem_addr_mark es (blank memory total) >>= λ p.
        physmem_addr_mark_used addr (used_bytes_to_frame_count (table_bytes total)) p
