-- ===== src/Clock.antt =====
-- The clock of core/drivers/cmos/cmos.c. `register` gives what the chip holds in each register; the wait for
-- the end of an update and the printing are not modelled.
pub mod Stamp
mod Tests
use kernix_os.Base.{ℕ, ◌+◌, ◌-◌, ◌*◌, ◌/◌, ◌%◌, ◌^◌, u8, u64}

-- `cmos_time_t`
pub record CmosTime : Type 0 where
  pub second : ℕ
  pub minute : ℕ
  pub hour : ℕ
  pub day : ℕ
  pub month : ℕ
  pub year : ℕ

pub bcd_to_binary : ℕ → ℕ
bcd_to_binary bcd = u8 (bcd / 16 * 10 + bcd % 16)

pub cmos_read_time : (register : ℕ → ℕ) → CmosTime
unfolding bcd_to_binary
cmos_read_time register = record {
  second = bcd_to_binary (register 0x00);
  minute = bcd_to_binary (register 0x02);
  hour = bcd_to_binary (register 0x04);
  day = bcd_to_binary (register 0x07);
  month = bcd_to_binary (register 0x08);
  year = bcd_to_binary (register 0x09);
}

-- `total` of `GetCMOSMem`
pub cmos_memory : (register : ℕ → ℕ) → ℕ
cmos_memory register = register 0x30 + register 0x31 * 256

-- `time.month - 1` is an `int`, and -1 becomes 2 ^ 64 - 1 when it is cast.
pub less_one : ℕ → ℕ
less_one n = (n + 2 ^ 64 - 1) % 2 ^ 64

pub unix_timestamp : CmosTime → ℕ
unfolding less_one
unix_timestamp t = u64 (
    946684800
    + t.year * 365 * 24 * 3600
    + less_one t.month * 30 * 24 * 3600
    + less_one t.day * 24 * 3600
    + t.hour * 3600
    + t.minute * 60
    + t.second)

pub cmos_get_unix_timestamp : (register : ℕ → ℕ) → ℕ
unfolding cmos_read_time unix_timestamp
cmos_get_unix_timestamp register = unix_timestamp (cmos_read_time register)
