-- ===== src/Clock/Tests.antt =====
-- 31 January and 1 February 2024, at noon.
use kernix_os.Clock.{CmosTime}

abbrev january : CmosTime
january = record { second = 0; minute = 0; hour = 12; day = 31; month = 1; year = 24 }
