-- ===== src/Clock/Stamp.antt =====
-- The registers hold two decimal digits each, and the timestamp counts months of 30 days.
use kernix_os.Base.{ℕ, ◌+◌, ◌*◌, ◌≤◌, ◌<◌, ◌≡◌, arith}
use kernix_os.Clock.{CmosTime, bcd_to_binary, less_one, unix_timestamp}

-- A byte of two decimal digits is the number that they write.
pub bcd_to_binary-digits :
    (tens ones : ℕ) → tens < 10 → ones < 10 → bcd_to_binary (tens * 16 + ones) ≡ tens * 10 + ones
unfolding bcd_to_binary
bcd_to_binary-digits tens ones t o = omega arith

-- The last day of a month of 31 days and the first of the next have the same timestamp.
pub unix_timestamp_repeats :
    (t : CmosTime)
    → t.year < 100
    → 1 ≤ t.month
    → t.month < 12
    → t.hour < 24
    → t.minute < 60
    → t.second < 60
    → unix_timestamp (record t { day = 31 })
      ≡ unix_timestamp (record t { day = 1; month = t.month + 1 })
unfolding unix_timestamp less_one
unix_timestamp_repeats t y m m' h i s = omega arith
