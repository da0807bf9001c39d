-- ===== src/Heap/Malloc.antt =====
-- What `malloc` returns, and the heap that it leaves.
use kernix_os.Base.{ℕ, ◌+◌, ◌≤◌, ◌<◌, ◌≡◌, ◌⊎◌, false, Option, none, some, List, [], ◌∷◌}
use kernix_os.Heap.{header, Store}
use kernix_os.Heap.Layout.{Cell, unzip, IsHeap}
use kernix_os.Heap.Fit.{NoBetter}
use kernix_os.Heap.Claim.{claimed}

-- No free block holds `size` bytes.
abbrev pub NoFit : ℕ → List Cell → Type 0
NoFit size [] = Unit
NoFit size (c ∷ cs) = (c.used ≡ false → c.size < size) × NoFit size cs

-- The block `cell` of the heap `cells` was given out as `ptr`: it was free and a smallest of those that
-- hold `size` bytes, and the heap is well formed with `claimed` in its place.
pub record Granted (st' : Store) (start end size : ℕ) (cells : List Cell) (ptr : ℕ) : Type 0 where
  pub left : List Cell
  pub cell : Cell
  pub right : List Cell
  pub split : unzip left (cell ∷ right) ≡ cells
  pub unused : cell.used ≡ false
  pub fits : size ≤ cell.size
  pub best : NoBetter size cell.size cells
  pub payload : ptr ≡ cell.addr + header
  pub heap : IsHeap st' start end (unzip left (claimed cell size right))

abbrev pub Served : Store → (start end size : ℕ) → List Cell → Option (ℕ × Store) → Type 0
Served st start end size cells none = ⊥
Served st start end size cells (some (ptr, st')) =
    ((ptr ≡ 0) × (st' ≡ st) × NoFit size cells) ⊎ Granted st' start end size cells ptr
