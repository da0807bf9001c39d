-- ===== src/Phys.antt =====
-- The physical frame allocator of core/kernel/mem/phys/physmem.c: a bitmap with a set bit for each
-- frame in use, and a table of frame records beside it. Frame numbers are physical addresses divided
-- by PAGE_SIZE. The higher-half offset only tells at which virtual address the two tables are read,
-- and does not enter the model.
pub mod Bits
pub mod Mark
pub mod Scan
pub mod Alloc
pub mod Count
pub mod Boot
mod Tests
use kernix_os.Base.{
  ℕ, zero, suc, ◌+◌, ◌-◌, ◌*◌, ◌/◌, ◌%◌, ◌^◌, bit_and, bit_or, Bool, true, false, not, ◌&&◌, ◌||◌,
  Option, none, some, List, [], ◌∷◌, ltb, leb, ◌==◌, if◌then◌else◌, get_or, set, replicate, u64,
}
use kernix_os.Base.Panic.{Kernel, returns, panics, ◌>>=◌}

-- `physmem_pageframe_t`
pub record PageFrame : Type 0 where
  pub rc : ℕ
  pub flags : ℕ

-- The file's static variables. `tracked` says that `physmem_pageframes` is not NULL.
pub record Physmem : Type 0 where
  pub tracked : Bool
  pub pageframes : List PageFrame
  pub total : ℕ
  pub bitmap : List ℕ

abbrev pub page_size : ℕ
page_size = 4096

-- `bitmap[idx >> 3] >> (idx & 7) & 1`, as a test
unfoldable pub bitmap_test : List ℕ → ℕ → Bool
bitmap_test bitmap idx = bit_and (get_or bitmap (idx / 8) 0 / 2 ^ (idx % 8)) 1 == 1

pub bitmap_set : List ℕ → ℕ → List ℕ
bitmap_set bitmap idx = set bitmap (idx / 8) (bit_or (get_or bitmap (idx / 8) 0) (2 ^ (idx % 8)))

-- `~(1 << k)` keeps every bit of a byte but bit k.
pub bitmap_clear : List ℕ → ℕ → List ℕ
bitmap_clear bitmap idx =
    set bitmap (idx / 8) (bit_and (get_or bitmap (idx / 8) 0) (255 - 2 ^ (idx % 8)))

-- What a marking loop writes for each frame: the bit and the frame record.
pub record Marking : Type 0 where
  pub used : Bool
  pub frame : PageFrame

-- FRAME_FREE, FRAME_USED and FRAME_USED | FRAME_KERNEL
abbrev pub mark_free : Marking
mark_free = record { used = false; frame = record { rc = 0; flags = 0 } }

abbrev pub mark_used : Marking
mark_used = record { used = true; frame = record { rc = 1; flags = 1 } }

abbrev pub mark_kernel : Marking
mark_kernel = record { used = true; frame = record { rc = 1; flags = 3 } }

pub mark_frame : Marking → ℕ → Physmem → Physmem
mark_frame m frame p = record p {
  bitmap = if m.used then bitmap_set p.bitmap frame else bitmap_clear p.bitmap frame;
  pageframes = set p.pageframes frame m.frame;
}

-- `for (frame = frame_start; frame < frame_end; frame++)`, with the number of rounds counted.
pub mark_each : Marking → ℕ → ℕ → Physmem → Physmem
mark_each m zero frame p = p
mark_each m (suc rounds) frame p = mark_each m rounds (frame + 1) (mark_frame m frame p)

-- `if (frame_end > physmem_total) frame_end = physmem_total;`
abbrev pub clamp_end : ℕ → ℕ → ℕ
clamp_end total frame_end = if ltb total frame_end then total else frame_end

pub mark_range : Marking → ℕ → ℕ → Physmem → Physmem
mark_range m frame_start frame_end p =
    mark_each m (clamp_end p.total frame_end - frame_start) frame_start p

pub physmem_addr_mark_used : ℕ → ℕ → Physmem → Kernel Physmem
physmem_addr_mark_used addr count p =
    if not p.tracked
    then panics
    else returns (mark_range mark_used (addr / page_size) (u64 (addr / page_size + count)) p)

pub physmem_addr_mark_free : ℕ → ℕ → Physmem → Kernel Physmem
physmem_addr_mark_free addr count p =
    if not p.tracked
    then panics
    else returns (mark_range mark_free (addr / page_size) (u64 (addr / page_size + count)) p)

-- The search loop of `physmem_alloc_to` from `frame` on, over its variables `consecutive` and
-- `start_frame`. The result is `start_frame` if the loop sets `all_free`.
pub scan : ℕ → List ℕ → (rounds frame consecutive start_frame : ℕ) → Option ℕ
scan count bitmap zero frame consecutive start_frame = none
scan count bitmap (suc rounds) frame consecutive start_frame =
    let start' = if consecutive == 0 then frame else start_frame in
    let on = scan count bitmap rounds (frame + 1) (consecutive + 1) start' in
    let over = scan count bitmap rounds (frame + 1) 0 start_frame in
    if not (bitmap_test bitmap frame)
    then (if leb count (consecutive + 1) then some start' else on)
    else over

-- Frames below 512 (the first 2 MiB) are never handed out.
abbrev pub start_search : ℕ
start_search = 512

pub take_frames : ℕ → Physmem → Option ℕ → Kernel (ℕ × Physmem)
take_frames count p none = returns (0, p)
take_frames count p (some start_frame) =
    let addr = u64 (start_frame * page_size) in
    physmem_addr_mark_used addr count p >>= λ p'. returns (addr, p')

pub physmem_alloc_to : ℕ → Physmem → Kernel (ℕ × Physmem)
unfolding take_frames
physmem_alloc_to count p =
    if count == 0
    then returns (0, p)
    else take_frames count p (scan count p.bitmap (p.total - start_search) start_search 0 0)

pub physmem_free_to : ℕ → ℕ → Physmem → Kernel Physmem
physmem_free_to addr count p = if count == 0 then returns p else physmem_addr_mark_free addr count p

free_from : List ℕ → (rounds frame count : ℕ) → ℕ
free_from bitmap zero frame count = count
free_from bitmap (suc rounds) frame count =
    free_from bitmap rounds (frame + 1)
      (if not (bitmap_test bitmap frame) then count + 1 else count)

pub physmem_free_get : Physmem → ℕ
unfolding free_from
physmem_free_get p = free_from p.bitmap p.total 0 0
