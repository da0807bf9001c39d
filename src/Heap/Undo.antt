-- ===== src/Heap/Undo.antt =====
-- Free blocks never stand next to each other: `free` keeps that, and with it undoes `malloc`.
use kernix_os.Base.{ℕ, ◌≡◌, false, Option, none, some, List, [], ◌∷◌}
use kernix_os.Heap.{Store}
use kernix_os.Heap.Layout.{Cell, unzip, IsHeap}
use kernix_os.Heap.Release.{drop_free, join_right, join_left, head_free}
use kernix_os.Heap.Free.{released}

-- No two adjacent blocks are both free.
abbrev pub Apart : List Cell → Type 0
Apart [] = Unit
Apart (c ∷ cs) = (c.used ≡ false → head_free cs ≡ false) × Apart cs

-- The heap `cells` again, after a `free` that returned.
abbrev pub Restored : (start end : ℕ) → List Cell → Option (ℕ × Store) → Type 0
Restored start end cells none = ⊥
Restored start end cells (some (n, st)) = IsHeap st start end cells

-- The blocks after `free` of `c` between `left`, nearest first, and `right`.
abbrev pub around : List Cell → Cell → List Cell → List Cell
around left c right =
    unzip (drop_free left) (join_left (join_right (released c) right) left ∷ drop_free right)
