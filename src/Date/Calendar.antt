-- ===== src/Date/Calendar.antt =====
-- include/SkBase/Date.hxx: `isLeapYear` and `daysInMonth` against the Gregorian calendar.
use sketch.Base.{
  ℕ, zero, suc, ◌+◌, ◌%◌, ◌≤◌, ◌<◌, ◌≡◌, ◌≢◌, ◌↔◌, ◌⊎◌, inl, inr, refl, ◌∙◌, true, arith,
  if◌then◌else◌, Bool-cases, ap,
}
use sketch.Base.Int.{ℤ, pos, pos_part, neg_part}
use sketch.Date.{is_leap_year, days_in_month}

abbrev pub magnitude : ℤ → ℕ
magnitude y = pos_part y + neg_part y

-- A year is a leap year exactly if 4 divides it, and 100 does not or 400 does too.
pub is_leap_year_iff :
    (y : ℤ)
    → (is_leap_year y ≡ true)
      ↔ ((magnitude y % 4 ≡ 0) × ((magnitude y % 100 ≢ 0) ⊎ (magnitude y % 400 ≡ 0)))
unfolding is_leap_year
is_leap_year_iff y = ground arith

-- The days of the months from `m` on, `n` of them.
pub days : ℤ → ℕ → ℕ → ℕ
days y m zero = 0
days y m (suc n) = days_in_month y (pos m) + days y (m + 1) n

-- The twelve months have 366 days in a leap year, and 365 in any other.
pub days_of_year : (y : ℤ) → days y 1 12 ≡ (if is_leap_year y then 366 else 365)
unfolding days days_in_month
days_of_year y = elim (Bool-cases (is_leap_year y)) [ inl e ↦ rw e | inr e ↦ rw e ]

-- A month has 28 to 31 days, and a number that is no month has none.
pub days_in_month_bounds :
    (y : ℤ) (m : ℕ)
    → (1 ≤ m → m ≤ 12 → (28 ≤ days_in_month y (pos m)) × (days_in_month y (pos m) ≤ 31))
      × (12 < m → days_in_month y (pos m) ≡ 0)
unfolding days_in_month
days_in_month_bounds y m = (λ h k. ground arith, λ h. ground arith)

abbrev leap : ℕ → ℕ
leap y = if is_leap_year (pos y) then 1 else 0

-- The leap years among `n` years from `y` on.
pub leap_years : ℕ → ℕ → ℕ
leap_years y zero = 0
leap_years y (suc n) = leap y + leap_years (y + 1) n

leap_period : (y : ℕ) → leap (y + 400) ≡ leap y
unfolding is_leap_year
leap_period y =
    let a : (y + 400 + 0) % 400 ≡ (y + 0) % 400 = omega arith in
    let b : (y + 400 + 0) % 100 ≡ (y + 0) % 100 = omega arith in
    let c : (y + 400 + 0) % 4 ≡ (y + 0) % 4 = omega arith in rw (a, b, c)

leap_years-suc : (y n : ℕ) → leap_years y (suc n) ≡ leap_years y n + leap (y + n)
unfolding leap_years
leap_years-suc y zero =
    let e : leap (y + 0) ≡ leap y = ap leap {y = y} (omega arith) in omega (arith, e)
leap_years-suc y (suc n) =
    let e : leap (y + 1 + n) ≡ leap (y + suc n) = ap leap {y = y + suc n} (omega arith) in
    omega (arith, leap_years-suc (y + 1) n, e)

leap_years_step : (y n : ℕ) → n ≡ 400 → leap_years (y + 1) n ≡ leap_years y n
unfolding leap_years
leap_years_step y n h =
    let p : leap (y + n) ≡ leap y = rw h (leap_period y) in omega (arith, leap_years-suc y n, p)

leap_years_eq : (y n : ℕ) → n ≡ 400 → leap_years y n ≡ leap_years 0 n
leap_years_eq zero n h = refl
leap_years_eq (suc y) n h =
    let e : suc y ≡ y + 1 = omega arith in rw e (leap_years_step y n h ∙ leap_years_eq y n h)

-- Any 400 years in a row have 97 leap years.
pub leap_years_cycle : (y : ℕ) → leap_years y 400 ≡ 97
unfolding leap_years is_leap_year
leap_years_cycle y = leap_years_eq y 400 refl ∙ refl
