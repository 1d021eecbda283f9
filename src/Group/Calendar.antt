-- ===== src/Group/Calendar.antt =====
-- The calendar of a group 4A, counted in days, and the local offset: what the arithmetic of
-- rds_generate_group_4 comes to.
use jmpxrds.Base.{
  ℕ, ◌+◌, ◌-◌, ◌*◌, ◌/◌, ◌%◌, ◌≤◌, ◌<◌, [], ◌∷◌, get_or, ◌==◌, ==_iff, ltb, leb, if◌then◌else◌,
  true, ◌&&◌, ◌≡◌, refl, arith, all_below, all_below_sound,
}
use jmpxrds.Group.Clock.{Tm, julian_day, tz_offset, tz_sign, tz_half_hours}

-- The days of a year before a month, which counts from 0, without the leap day.
abbrev pub days_before : ℕ → ℕ
days_before mon =
    get_or (0 ∷ 31 ∷ 59 ∷ 90 ∷ 120 ∷ 151 ∷ 181 ∷ 212 ∷ 243 ∷ 273 ∷ 304 ∷ 334 ∷ []) mon 0

-- The day's number: 15020 is the modified Julian day of 1 January 1900, which is no leap year.
abbrev pub day_number : Tm → ℕ
day_number t =
    15019
    + 365 * t.year
    + (t.year - 1) / 4
    + days_before t.mon
    + (if ltb 1 t.mon && (t.year % 4 == 0) then 1 else 0)
    + t.mday

-- 0 where the local hour is above the universal one.
abbrev pub not_ahead : (here utc : Tm) → ℕ
not_ahead here utc = if ltb utc.hour here.hour then 0 else 1

-- The hours between the two.
abbrev pub apart : (here utc : Tm) → ℕ
apart here utc = (here.hour - utc.hour) + (utc.hour - here.hour)

-- The part of the month in the sum, which is the days before it and a constant.
month_table :
    all_below 12 (λ m.
      (if leb (m + 1) 2 then (m + 14) * 306001 / 10000 else (m + 2) * 306001 / 10000)
      == (if leb (m + 1) 2 then 428 else 63) + days_before m)
    ≡ true
unfolding all_below
month_table = refl

month-eq :
    (m : ℕ)
    → m < 12
    → (if leb (m + 1) 2 then (m + 14) * 306001 / 10000 else (m + 2) * 306001 / 10000)
      ≡ (if leb (m + 1) 2 then 428 else 63) + days_before m
month-eq m h = (==_iff _ _).0 (all_below_sound 12 _ m month_table h)

by_parts :
    (y m d b : ℕ)
    → 1 ≤ y
    → (if leb (m + 1) 2 then (m + 14) * 306001 / 10000 else (m + 2) * 306001 / 10000)
      ≡ (if leb (m + 1) 2 then 428 else 63) + b
    → julian_day y (m + 1) d
      ≡ 15019 + 365 * y + (y - 1) / 4 + b + (if ltb 1 m && (y % 4 == 0) then 1 else 0) + d
unfolding julian_day
by_parts y m d b h e = ground (arith, e)

pub julian_day-day_number :
    (t : Tm) → 1 ≤ t.year → t.mon < 12 → julian_day t.year (t.mon + 1) t.mday ≡ day_number t
julian_day-day_number t y m = by_parts t.year t.mon t.mday (days_before t.mon) y (month-eq t.mon m)

pub tz_sign-eq : (here utc : Tm) → tz_sign (tz_offset here utc) ≡ not_ahead here utc
unfolding tz_sign tz_offset
tz_sign-eq here utc = ground arith

pub tz_half_hours-eq : (here utc : Tm) → tz_half_hours (tz_offset here utc) ≡ 2 * apart here utc
unfolding tz_half_hours tz_offset
tz_half_hours-eq here utc = ground arith
