-- ===== src/Date.antt =====
-- include/SkBase/Date.hxx: calendar dates, their comparisons, and the conversions to and from the
-- system's `SYSTEMTIME`, whose fields are 16-bit words.
pub mod Calendar
pub mod Order
mod Tests
use sketch.Base.{ℕ, ◌+◌, ◌-◌, ◌%◌, ◌^◌, Bool, true, false, not, ◌==◌, if◌then◌else◌}
use sketch.Base.Int.{ℤ, pos, negsuc, pos_part, neg_part, ltb_ℤ, ◌==ℤ◌}

-- The fields are `int`s; a month and a day of the week are the numbers of their enumerations.
pub record Date : Type 0 where
  pub year : ℤ
  pub month : ℤ
  pub day : ℤ
  pub day_of_week : ℤ
  pub hour : ℤ
  pub minute : ℤ
  pub second : ℤ
  pub millisecond : ℤ

-- `year % n == 0`. The sign of a remainder does not matter to the test.
abbrev pub divides : ℕ → ℤ → Bool
divides n year = (pos_part year + neg_part year) % n == 0

pub is_leap_year : ℤ → Bool
is_leap_year year =
    if divides 400 year
    then true
    else if divides 100 year
    then false
    else if divides 4 year
    then true
    else false

pub days_in_month : ℤ → ℤ → ℕ
days_in_month year month =
    if month ==ℤ pos 1
    then 31
    else if month ==ℤ pos 2
    then (if is_leap_year year then 29 else 28)
    else if month ==ℤ pos 3
    then 31
    else if month ==ℤ pos 4
    then 30
    else if month ==ℤ pos 5
    then 31
    else if month ==ℤ pos 6
    then 30
    else if month ==ℤ pos 7
    then 31
    else if month ==ℤ pos 8
    then 31
    else if month ==ℤ pos 9
    then 30
    else if month ==ℤ pos 10
    then 31
    else if month ==ℤ pos 11
    then 30
    else if month ==ℤ pos 12
    then 31
    else 0

-- `operator==`, which leaves the day of the week out.
pub equal : Date → Date → Bool
equal a b =
    if not (a.year ==ℤ b.year)
    then false
    else if not (a.month ==ℤ b.month)
    then false
    else if not (a.day ==ℤ b.day)
    then false
    else if not (a.hour ==ℤ b.hour)
    then false
    else if not (a.minute ==ℤ b.minute)
    then false
    else if not (a.second ==ℤ b.second)
    then false
    else if not (a.millisecond ==ℤ b.millisecond)
    then false
    else true

-- `operator<`, with its inner blocks from the time of day on as a function of their own.
less_time : Date → Date → Bool
less_time a b =
    if ltb_ℤ a.hour b.hour
    then true
    else if a.hour ==ℤ b.hour
    then (if ltb_ℤ a.minute b.minute
        then true
        else if a.minute ==ℤ b.minute
        then (if ltb_ℤ a.second b.second
            then true
            else if a.minute ==ℤ b.minute
            then (if ltb_ℤ a.millisecond b.millisecond then true else false)
            else false)
        else false)
    else false

pub less : Date → Date → Bool
unfolding less_time
less a b =
    if ltb_ℤ a.year b.year
    then true
    else if a.year ==ℤ b.year
    then (if ltb_ℤ a.month b.month
        then true
        else if a.month ==ℤ b.month
        then (if ltb_ℤ a.day b.day then true else if a.day ==ℤ b.day then less_time a b else false)
        else false)
    else false

-- `operator>`, `operator>=` and `operator<=`
pub greater : Date → Date → Bool
greater a b = if not (less a b) then false else not (equal a b)

pub greater_equal : Date → Date → Bool
greater_equal a b = if less a b then false else true

pub less_equal : Date → Date → Bool
less_equal a b = if less a b then true else equal a b

pub record SystemTime : Type 0 where
  pub w_year : ℕ
  pub w_month : ℕ
  pub w_day : ℕ
  pub w_day_of_week : ℕ
  pub w_hour : ℕ
  pub w_minute : ℕ
  pub w_second : ℕ
  pub w_milliseconds : ℕ

-- `explicit Date(const SYSTEMTIME& st)`
pub from_system_time : SystemTime → Date
from_system_time st = record {
  year = pos st.w_year;
  month = pos st.w_month;
  day = pos st.w_day;
  day_of_week = pos st.w_day_of_week;
  hour = pos st.w_hour;
  minute = pos st.w_minute;
  second = pos st.w_second;
  millisecond = pos st.w_milliseconds;
}

-- `WORD(i)`: the low 16 bits of an `int`.
pub word : ℤ → ℕ
word (pos n) = n % 2 ^ 16
word (negsuc n) = 2 ^ 16 - 1 - n % 2 ^ 16

-- `toSystemTime`
pub to_system_time : Date → SystemTime
to_system_time d = record {
  w_year = word d.year;
  w_month = word d.month;
  w_day = word d.day;
  w_day_of_week = word d.day_of_week;
  w_hour = word d.hour;
  w_minute = word d.minute;
  w_second = word d.second;
  w_milliseconds = word d.millisecond;
}
