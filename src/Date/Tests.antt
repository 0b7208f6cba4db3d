-- ===== src/Date/Tests.antt =====
-- include/SkBase/Date.hxx: the comparisons at dates, and the theorems at them.
use sketch.Base.{ℕ, ◌≡◌, ◌≢◌, ◌↔◌, ◌⊎◌, ◌%◌, inl, refl, true, not, ◌||◌, arith, if◌then◌else◌}
use sketch.Base.Int.{pos}
use sketch.Date.{
  Date, SystemTime, is_leap_year, days_in_month, equal, less, greater, greater_equal, less_equal,
  from_system_time, to_system_time,
}
use sketch.Date.Calendar.{
  is_leap_year_iff, magnitude, days, days_of_year, leap_years, leap_years_cycle,
}
use sketch.Date.Order.{
  before, less-before, less_both, greater-eq-less, less_equal-greater_equal,
  to_system_time-from_system_time,
}

abbrev at_time : ℕ → ℕ → Date
at_time s ms = record {
  year = pos 2016;
  month = pos 2;
  day = pos 29;
  day_of_week = pos 1;
  hour = pos 23;
  minute = pos 59;
  second = pos s;
  millisecond = pos ms;
}

-- 23:59:58.001 is taken to be after 23:59:57.002 and before it.
seconds_lost : less (at_time 58 1) (at_time 57 2) ≡ true
unfolding less
seconds_lost = refl

february : days_in_month (pos 2016) (pos 2) ≡ 29
unfolding days_in_month is_leap_year
february = refl

is_leap_year_iff_example : (is_leap_year (pos 1900) ≡ true) ↔ (
    (magnitude (pos 1900) % 4 ≡ 0)
    × ((magnitude (pos 1900) % 100 ≢ 0) ⊎ (magnitude (pos 1900) % 400 ≡ 0)))
is_leap_year_iff_example = is_leap_year_iff (pos 1900)

days_of_year_example : days (pos 2016) 1 12 ≡ (if is_leap_year (pos 2016) then 366 else 365)
days_of_year_example = days_of_year (pos 2016)

leap_years_cycle_example : leap_years 1601 400 ≡ 97
leap_years_cycle_example = leap_years_cycle 1601

less-before_example : less (at_time 57 1) (at_time 58 0) ≡ before (at_time 57 1) (at_time 58 0)
less-before_example = less-before (at_time 57 1) (at_time 58 0) (inl (omega arith))

less_both_example :
    (less (at_time 58 1) (at_time 57 2) ≡ true) × (less (at_time 57 2) (at_time 58 1) ≡ true)
less_both_example = less_both (at_time 58 1) (at_time 57 2) refl refl refl refl refl refl refl

greater-eq-less_example : greater (at_time 1 0) (at_time 2 0) ≡ less (at_time 1 0) (at_time 2 0)
greater-eq-less_example = greater-eq-less (at_time 1 0) (at_time 2 0)

less_equal-greater_equal_example :
    (greater_equal (at_time 1 0) (at_time 2 0) ≡ not (before (at_time 1 0) (at_time 2 0)))
    × (less_equal (at_time 1 0) (at_time 2 0)
        ≡ (before (at_time 1 0) (at_time 2 0) || equal (at_time 1 0) (at_time 2 0)))
less_equal-greater_equal_example =
    less_equal-greater_equal (at_time 1 0) (at_time 2 0) (inl (omega arith))

abbrev noon : SystemTime
noon = record {
  w_year = 2016;
  w_month = 2;
  w_day = 29;
  w_day_of_week = 1;
  w_hour = 12;
  w_minute = 0;
  w_second = 0;
  w_milliseconds = 999;
}

to_system_time-from_system_time_example : to_system_time (from_system_time noon) ≡ noon
to_system_time-from_system_time_example = to_system_time-from_system_time noon (omega arith)
