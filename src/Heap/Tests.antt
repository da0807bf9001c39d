-- ===== src/Heap/Tests.antt =====
-- Runs of the heap on one free block, and on a used block with a free one behind it.
use kernix_os.Base.{true, false, ◌==◌, if◌then◌else◌}
use kernix_os.Heap.{Store, take_block}
use kernix_os.Heap.Layout.{Cell, hdr}

abbrev whole : Cell
whole = record { addr = 4096; size = 1000; used = false }

abbrev one_block : Store
one_block x = hdr whole 0 0

after_malloc : Store
after_malloc = take_block 4096 112 one_block

abbrev low : Cell
low = record { addr = 4096; size = 100; used = true }

abbrev high : Cell
high = record { addr = 4236; size = 900; used = false }

abbrev two_blocks : Store
two_blocks x = if x == 4096 then hdr low 4236 0 else hdr high 0 4096
