-- ===== src/Group/Clock.antt =====
-- The calendar arithmetic of `rds_generate_group_4`: rds_encoder.c. `gmtime_r` and `localtime_r` are
-- the C library's: a time is what the two calls give, or their failure.
use jmpxrds.Base.{ℕ, ◌+◌, ◌-◌, ◌*◌, ◌/◌, Option, leb, ltb, if◌then◌else◌}
use jmpxrds.Base.Int.{ℤ, pos, negsuc}

-- The fields of `struct tm` that are read: `year` counts from 1900 and `mon` from 0.
pub record Tm : Type 0 where
  pub min : ℕ
  pub hour : ℕ
  pub mday : ℕ
  pub mon : ℕ
  pub year : ℕ

pub record Time : Type 0 where
  pub utc : Option Tm
  pub local_time : Option Tm

-- `mjd`, with `month` from 1. The products by 365.25 and 30.6001 are cut to whole numbers: on the
-- months that occur no product lies within rounding of a whole number.
unfoldable pub julian_day : ℕ → ℕ → ℕ → ℕ
julian_day year month day =
    let leap_day : ℕ = if leb month 2 then 1 else 0 in
    14956 + day + (year - leap_day) * 1461 / 4 + (month + 1 + leap_day * 12) * 306001 / 10000

-- `tz_offset`, in hours.
unfoldable pub tz_offset : Tm → Tm → ℤ
tz_offset local_time utc =
    if leb utc.hour local_time.hour
    then pos (local_time.hour - utc.hour)
    else negsuc (utc.hour - local_time.hour - 1)

-- `tz_offset > 0 ? 0 : 1`
unfoldable pub tz_sign : ℤ → ℕ
tz_sign (pos n) = if ltb 0 n then 0 else 1
tz_sign (negsuc n) = 1

-- `(int)fabs(2 * tz_offset)`
unfoldable pub tz_half_hours : ℤ → ℕ
tz_half_hours (pos n) = 2 * n
tz_half_hours (negsuc n) = 2 * (n + 1)
