-- ===== src/Heap.antt =====
-- The kernel heap of core/kernel/mem/heap/heap.c: block headers in memory, linked both ways in the
-- order of their addresses. A store gives the header that an address holds; the bytes of the payloads
-- are not modelled, and headers of distinct blocks never overlap (see Heap/Layout.antt). A pointer is
-- an address and 0 is NULL. Loops run on fuel, and `none` means that it ran out.
pub mod Layout
pub mod Fit
pub mod Claim
pub mod Release
pub mod Malloc
pub mod Free
pub mod Undo
mod Tests
use kernix_os.Base.{
  ℕ, zero, suc, ◌+◌, ◌-◌, ◌*◌, ◌/◌, ◌%◌, ◌^◌, Bool, true, false, not, ◌&&◌, ◌||◌, Option, none,
  some, ltb, leb, ◌==◌, if◌then◌else◌, u64,
}

-- `heap_block_t`
pub record Block : Type 0 where
  pub magic : ℕ
  pub size : ℕ
  pub next : ℕ
  pub prev : ℕ
  pub used : Bool

abbrev pub block_magic : ℕ
block_magic = 0xDEADBEEF

-- `sizeof(heap_block_t)` with the padding of a 64-bit target
abbrev pub header : ℕ
header = 40

abbrev pub size_max : ℕ
size_max = 2 ^ 64 - 1

-- Unsigned subtraction wraps.
abbrev pub sub64 : ℕ → ℕ → ℕ
sub64 a b = (a + 2 ^ 64 - b) % 2 ^ 64

abbrev pub Store : Type 0
Store = ℕ → Block

unfoldable pub write : ℕ → Block → Store → Store
write a b st x = if x == a then b else st x

-- `current->next && !current->next->used && current->next->magic == BLOCK_MAGIC`, for either neighbour
pub can_merge : Store → ℕ → Bool
can_merge st p = not (p == 0) && not (st p).used && ((st p).magic == block_magic)

-- `if (p) if (p->magic == BLOCK_MAGIC) p->prev = q;`
pub set_prev_checked : ℕ → ℕ → Store → Store
unfolding write
set_prev_checked p q st =
    if not (p == 0) && ((st p).magic == block_magic)
    then write p (record (st p) { prev = q }) st
    else st

-- One round of either merging loop: the block `low` takes over the block `high` behind it.
pub absorb : ℕ → ℕ → Store → Store
unfolding write set_prev_checked
absorb low high st = set_prev_checked (st high).next low (
    write low
      (record (st low) {
        size = u64 ((st low).size + header + (st high).size);
        next = (st high).next;
      })
      st)

pub merge_forward : ℕ → ℕ → ℕ → Store → Option (ℕ × Store)
unfolding can_merge absorb
merge_forward zero block ret st = none
merge_forward (suc fuel) block ret st =
    let next = (st block).next in
    let on = merge_forward fuel block (ret + 1) (absorb block next st) in
    if can_merge st next then on else some (ret, st)

pub merge_backward : ℕ → ℕ → ℕ → Store → Option (ℕ × Store)
unfolding can_merge absorb
merge_backward zero current ret st = none
merge_backward (suc fuel) current ret st =
    let prev = (st current).prev in
    let on = merge_backward fuel prev (ret + 1) (absorb prev current st) in
    if can_merge st prev then on else some (ret, st)

pub then_backward : ℕ → ℕ → Option (ℕ × Store) → Option (ℕ × Store)
unfolding merge_backward
then_backward fuel block none = none
then_backward fuel block (some (ret, st)) = merge_backward fuel block ret st

pub heap_merge_free_blocks : ℕ → ℕ → Store → Option (ℕ × Store)
unfolding merge_forward then_backward
heap_merge_free_blocks fuel block st =
    if not ((st block).magic == block_magic)
    then some (0, st)
    else then_backward fuel block (merge_forward fuel block 0 st)

-- `(size + 15) & ~15`
abbrev pub round_up : ℕ → ℕ
round_up size = u64 (size + 15) / 16 * 16

-- The search loop of `malloc` from `current` on; the result is `best_fit`.
pub find_best : ℕ → Store → ℕ → (current best_fit best_size : ℕ) → Option ℕ
find_best zero st size current best_fit best_size = none
find_best (suc fuel) st size current best_fit best_size =
    let b = st current in
    let fits = not b.used && leb size b.size && ltb b.size best_size in
    let taken = find_best fuel st size b.next current b.size in
    let passed = find_best fuel st size b.next best_fit best_size in
    if current == 0
    then some best_fit
    else if fits
    then (if b.size == size then some current else taken)
    else passed

-- `if (p) p->prev = q;`
pub set_prev : ℕ → ℕ → Store → Store
unfolding write
set_prev p q st = if p == 0 then st else write p (record (st p) { prev = q }) st

-- The split of `malloc`: a free block behind the first `size` bytes of the payload.
pub split_block : ℕ → ℕ → Store → Store
unfolding write set_prev
split_block best size st =
    let b = st best in
    let new_block = best + header + size in
    let st1 =
      write new_block
        (record {
          magic = block_magic;
          size = sub64 (sub64 b.size size) header;
          next = b.next;
          prev = best;
          used = false;
        })
        st in
    let st2 = set_prev b.next new_block st1 in
    write best (record (st2 best) { size = size; next = new_block }) st2

pub take_block : ℕ → ℕ → Store → Store
unfolding split_block write
take_block best size st =
    let st1 =
      (if leb (u64 (size + header + 16)) (st best).size then split_block best size st else st) in
    write best (record (st1 best) { used = true }) st1

-- `best_fit == NULL` gives NULL, and any other block its payload's address.
pub hand_out : ℕ → Store → Option ℕ → Option (ℕ × Store)
unfolding take_block
hand_out size st none = none
hand_out size st (some best) =
    if best == 0 then some (0, st) else some (best + header, take_block best size st)

pub malloc : ℕ → ℕ → ℕ → Store → Option (ℕ × Store)
unfolding find_best hand_out
malloc fuel heap size st =
    if (heap == 0) || (size == 0)
    then some (0, st)
    else hand_out (round_up size) st (find_best fuel st (round_up size) heap 0 size_max)

-- `!blk->size > (1ULL < 40)` compares the truth values 0 or 1 with 1.
abbrev pub implausible : ℕ → Bool
implausible size = ltb 1 (if size == 0 then 1 else 0)

pub free_block : ℕ → ℕ → Store → Option (ℕ × Store)
unfolding write heap_merge_free_blocks
free_block fuel blk st =
    let b = st blk in
    if not (b.magic == block_magic)
    then some (0, st)
    else if not b.used
    then some (0, st)
    else if implausible b.size
    then some (0, st)
    else heap_merge_free_blocks fuel blk (write blk (record b { used = false }) st)

pub free : ℕ → ℕ → Store → Option (ℕ × Store)
unfolding free_block
free fuel ptr st = if ptr == 0 then some (0, st) else free_block fuel (sub64 ptr header) st
