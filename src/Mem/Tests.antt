-- ===== src/Mem/Tests.antt =====
-- Three bytes between two words, and a move of overlapping bytes.
use kernix_os.Base.{◌≡◌}
use kernix_os.Mem.{Memory, memmove}
use kernix_os.Mem.Fill.{memmove-copy}

abbrev counting : Memory
counting x = x

memmove-copy_example : memmove 10 8 4 counting 12 ≡ 10
memmove-copy_example = memmove-copy 10 8 4 counting 12
