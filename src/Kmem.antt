-- ===== src/Kmem.antt =====
-- The kernel memory of core/kernel/mem/kernel_memory/kernel_memory.c: the heap of Heap.antt with a count of
-- the bytes in use. The other regions, of which only the start is kept, and the clearing of what
-- `kernel_memory_alloc` gives out are not modelled.
pub mod Init
use kernix_os.Base.{
  ℕ, zero, suc, ◌+◌, ◌-◌, ◌*◌, ◌%◌, ◌^◌, Bool, true, false, ◌||◌, Option, none, some, ◌==◌,
  if◌then◌else◌, u64,
}
use kernix_os.Heap.{Block, block_magic, header, Store, write, sub64, malloc, free}

-- `kernel_memory_t`, as far as the heap goes, with the headers of the heap
pub record KernelMemory : Type 0 where
  pub start_heap : ℕ
  pub total_heap : ℕ
  pub used_heap : ℕ
  pub store : Store

-- The heap that `kernel_memory_init` makes: one free block
pub kernel_memory_init : (start_heap size_heap : ℕ) → Store → KernelMemory
kernel_memory_init start_heap size_heap store = record {
  start_heap = start_heap;
  total_heap = size_heap - header;
  used_heap = 0;
  store =
      write start_heap
        (record {
          magic = block_magic;
          size = size_heap - header;
          next = 0;
          prev = 0;
          used = false;
        })
        store;
}

-- What follows the call of `malloc`; `none` is a call that has run out of fuel.
pub count_block : KernelMemory → Option (ℕ × Store) → Option (ℕ × KernelMemory)
count_block km none = none
count_block km (some (ptr, store)) =
    let used = u64 (km.used_heap + (store (sub64 ptr header)).size + header) in
    if ptr == 0
    then some (0, record km { store = store })
    else some (ptr, record km { store = store; used_heap = used })

pub kernel_memory_create : (fuel size : ℕ) → KernelMemory → Option (ℕ × KernelMemory)
unfolding count_block
kernel_memory_create fuel size km =
    if size == 0 then some (0, km) else count_block km (malloc fuel km.start_heap size km.store)

pub kernel_memory_alloc : (fuel size count : ℕ) → KernelMemory → Option (ℕ × KernelMemory)
unfolding count_block
kernel_memory_alloc fuel size count km =
    if size == 0
    then some (0, km)
    else count_block km (malloc fuel km.start_heap (u64 (count * size)) km.store)

-- What follows the call of `free`
pub uncount : (block_size : ℕ) → KernelMemory → Option (ℕ × Store) → Option KernelMemory
uncount block_size km none = none
uncount block_size km (some (merged, store)) = some (record km {
  store = store;
  used_heap = sub64 (sub64 km.used_heap block_size) (header * merged);
})

pub kernel_memory_free : (fuel ptr : ℕ) → KernelMemory → Option KernelMemory
unfolding uncount
kernel_memory_free fuel ptr km =
    if ptr == 0
    then some km
    else uncount (km.store (sub64 ptr header)).size km (free fuel ptr km.store)

pub kernel_memory_get_total_size : KernelMemory → ℕ
kernel_memory_get_total_size km = km.total_heap

pub kernel_memory_get_used_size : KernelMemory → ℕ
kernel_memory_get_used_size km = km.used_heap

pub kernel_memory_get_free_size : KernelMemory → ℕ
kernel_memory_get_free_size km = sub64 km.total_heap km.used_heap
