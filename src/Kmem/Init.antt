-- ===== src/Kmem/Init.antt =====
-- The heap that `kernel_memory_init` makes is well formed.
use kernix_os.Base.{ℕ, ◌+◌, ◌-◌, ◌≤◌, ◌<◌, ◌^◌, refl, false, [], ◌∷◌, arith}
use kernix_os.Heap.{header, Store, write}
use kernix_os.Heap.Layout.{IsHeap}
use kernix_os.Kmem.{kernel_memory_init}

-- One free block over the whole area, with its header at the start.
pub kernel_memory_init-IsHeap :
    (start_heap size_heap : ℕ) (store : Store)
    → 0 < start_heap
    → header ≤ size_heap
    → start_heap + size_heap < 2 ^ 63
    → IsHeap
        (kernel_memory_init start_heap size_heap store).store
        start_heap
        (start_heap + size_heap)
        (record { addr = start_heap; size = size_heap - header; used = false } ∷ [])
unfolding kernel_memory_init write
kernel_memory_init-IsHeap start_heap size_heap store pos room small = record {
  first = start_heap;
  zip = record {
    before = refl;
    behind = (0, refl, pos, ground arith, refl);
    tile_left = refl;
    tile_right = (refl, omega arith);
    small = small;
  };
}
