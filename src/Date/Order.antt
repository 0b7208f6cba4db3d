-- ===== src/Date/Order.antt =====
-- include/SkBase/Date.hxx: the comparison operators against the order of the fields.
use sketch.Base.{
  ◌^◌, ◌<◌, ◌≡◌, ◌↔◌, ◌⊎◌, refl, Bool, true, false, not, ◌&&◌, ◌||◌, arith, if◌then◌else◌,
}
use sketch.Base.Int.{ℤ, ltb_ℤ, ◌==ℤ◌, ◌≤ℤ◌, eq_of_parts}
use sketch.Date.{
  Date, SystemTime, equal, less, greater, less_equal, greater_equal, from_system_time,
  to_system_time, word, less_time,
}

-- The later of two comparisons decides where the first finds no difference.
abbrev then_by : ℤ → ℤ → Bool → Bool
then_by a b rest = ltb_ℤ a b || ((a ==ℤ b) && rest)

abbrev before_time : Date → Date → Bool
before_time a b =
    then_by a.hour b.hour
      (then_by a.minute b.minute (then_by a.second b.second (ltb_ℤ a.millisecond b.millisecond)))

-- The order of dates: by year, month, day, hour, minute, second and millisecond, in this order.
abbrev pub before : Date → Date → Bool
before a b = then_by a.year b.year (then_by a.month b.month (then_by a.day b.day (before_time a b)))

-- The seconds or the milliseconds do not speak against each other.
abbrev pub Agree : Date → Date → Type 0
Agree a b = (a.second ≤ℤ b.second) ⊎ (b.millisecond ≤ℤ a.millisecond)

less_time-before : (a b : Date) → Agree a b → less_time a b ≡ before_time a b
unfolding less_time
less_time-before a b h = ground arith

-- `operator<` is the order of dates by their fields, for two dates of which the first has no
-- greater second than the other or no smaller millisecond.
pub less-before : (a b : Date) → Agree a b → less a b ≡ before a b
unfolding less
less-before a b h = ground (arith, less_time-before a b h)

-- Dates in the same minute, of which one has the greater second and the other the greater
-- millisecond, are each less than the other.
pub less_both :
    (a b : Date)
    → a.year ≡ b.year
    → a.month ≡ b.month
    → a.day ≡ b.day
    → a.hour ≡ b.hour
    → a.minute ≡ b.minute
    → ltb_ℤ b.second a.second ≡ true
    → ltb_ℤ a.millisecond b.millisecond ≡ true
    → (less a b ≡ true) × (less b a ≡ true)
unfolding less
less_both a b y m d h n s l = ground arith

equal-fields :
    (a b : Date)
    → equal a b ≡ true
    → (a.year ≡ b.year)
      × (a.month ≡ b.month)
      × (a.day ≡ b.day)
      × (a.hour ≡ b.hour)
      × (a.minute ≡ b.minute)
      × (a.second ≡ b.second)
      × (a.millisecond ≡ b.millisecond)
unfolding equal
equal-fields a b h = ground (
  arith,
  eq_of_parts a.year b.year,
  eq_of_parts a.month b.month,
  eq_of_parts a.day b.day,
  eq_of_parts a.hour b.hour,
  eq_of_parts a.minute b.minute,
  eq_of_parts a.second b.second,
  eq_of_parts a.millisecond b.millisecond,
)

equal_of_fields :
    (a b : Date)
    → (a.year ≡ b.year)
      × (a.month ≡ b.month)
      × (a.day ≡ b.day)
      × (a.hour ≡ b.hour)
      × (a.minute ≡ b.minute)
      × (a.second ≡ b.second)
      × (a.millisecond ≡ b.millisecond)
    → equal a b ≡ true
unfolding equal
equal_of_fields a b h = ground arith

-- `operator==` holds exactly if all fields but the day of the week agree.
pub equal_iff :
    (a b : Date)
    → (equal a b ≡ true) ↔ (
        (a.year ≡ b.year)
        × (a.month ≡ b.month)
        × (a.day ≡ b.day)
        × (a.hour ≡ b.hour)
        × (a.minute ≡ b.minute)
        × (a.second ≡ b.second)
        × (a.millisecond ≡ b.millisecond))
equal_iff a b = (equal-fields a b, equal_of_fields a b)

less-equal-false : (a b : Date) → equal a b ≡ true → less a b ≡ false
unfolding less
less-equal-false a b h = ground (arith, equal-fields a b h)

-- `operator>` answers what `operator<` answers, for every two dates.
pub greater-eq-less : (a b : Date) → greater a b ≡ less a b
unfolding greater
greater-eq-less a b = ground (arith, less-equal-false a b)

answers :
    (b e : Bool) → ((if b then false else true) ≡ not b) × ((if b then true else e) ≡ (b || e))
answers true e = (refl, refl)
answers false e = (refl, refl)

-- For dates as in `less-before`, `operator>=` is the negation of the order, and `operator<=` says
-- that the first is before the second or has the same fields.
pub less_equal-greater_equal :
    (a b : Date)
    → Agree a b
    → (greater_equal a b ≡ not (before a b)) × (less_equal a b ≡ (before a b || equal a b))
unfolding greater_equal less_equal
less_equal-greater_equal a b h = rw (less-before a b h) (answers (before a b) (equal a b))

pub record Fits (st : SystemTime) : Type 0 where
  pub year : st.w_year < 2 ^ 16
  pub month : st.w_month < 2 ^ 16
  pub day : st.w_day < 2 ^ 16
  pub day_of_week : st.w_day_of_week < 2 ^ 16
  pub hour : st.w_hour < 2 ^ 16
  pub minute : st.w_minute < 2 ^ 16
  pub second : st.w_second < 2 ^ 16
  pub milliseconds : st.w_milliseconds < 2 ^ 16

-- A system time, whose fields are words, comes back unchanged from a date.
pub to_system_time-from_system_time :
    (st : SystemTime) → Fits st → to_system_time (from_system_time st) ≡ st
unfolding to_system_time from_system_time word
to_system_time-from_system_time st h = ground arith
