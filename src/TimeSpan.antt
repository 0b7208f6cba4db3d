-- ===== src/TimeSpan.antt =====
-- include/SkBase/TimeSpan.hxx: a time span as a count of intervals of 100 nanoseconds, and
-- include/SkBase/Time.hxx: a point in time as such a count and its two 32-bit halves. The `int64_t`
-- of a span is an exact integer here; `from_parts_bounds` says where it does not overflow.
mod Tests
use sketch.Base.{ℕ, ◌+◌, ◌-◌, ◌*◌, ◌/◌, ◌%◌, ◌^◌, ◌≤◌, ◌<◌, ◌≡◌, arith}
use sketch.Base.Int.{ℤ, pos, negsuc, pos_part, neg_part, sub_ℕ, ◌+ℤ◌, ◌-ℤ◌}

-- `TimeSpan(hours, minutes, seconds, milliseconds)`
pub from_parts : ℕ → ℕ → ℕ → ℕ → ℤ
from_parts hours minutes seconds milliseconds =
    pos (((((hours * 60) + minutes) * 60 + seconds) * 1000 + milliseconds) * 10000)

-- Division of `int64_t` by a positive number goes towards zero.
abbrev pub quot : ℤ → ℕ → ℤ
quot a n = sub_ℕ (pos_part a / n) (neg_part a / n)

pub to_days : ℤ → ℤ
to_days span = quot span (10000000 * 3600 * 24)

pub to_hours : ℤ → ℤ
to_hours span = quot span (10000000 * 3600)

pub to_minutes : ℤ → ℤ
to_minutes span = quot span (10000000 * 60)

pub to_seconds : ℤ → ℤ
to_seconds span = quot span 10000000

pub to_milliseconds : ℤ → ℤ
to_milliseconds span = quot span 10000

-- The conversions take the parts of a span apart again, each rounded down.
pub to_parts-from_parts :
    (h m s ms : ℕ)
    → m < 60
    → s < 60
    → ms < 1000
    → (to_days (from_parts h m s ms) ≡ pos (h / 24))
      × (to_hours (from_parts h m s ms) ≡ pos h)
      × (to_minutes (from_parts h m s ms) ≡ pos (h * 60 + m))
      × (to_seconds (from_parts h m s ms) ≡ pos ((h * 60 + m) * 60 + s))
      × (to_milliseconds (from_parts h m s ms) ≡ pos (((h * 60 + m) * 60 + s) * 1000 + ms))
unfolding to_days to_hours to_minutes to_seconds to_milliseconds from_parts
to_parts-from_parts h m s ms a b c =
    (ground arith, ground arith, ground arith, ground arith, ground arith)

-- Up to 256204777 hours with any minutes and seconds a span stays below the limit of `int64_t`.
pub from_parts_bounds :
    (h m s ms : ℕ)
    → h ≤ 256204777
    → m < 60
    → s < 60
    → ms < 1000
    → pos_part (from_parts h m s ms) < 2 ^ 63
unfolding from_parts
from_parts_bounds h m s ms a b c d = omega arith

-- `Time(const FILETIME&)` and `toFileTime`
pub record FileTime : Type 0 where
  pub low : ℕ
  pub high : ℕ

pub from_file_time : FileTime → ℕ
from_file_time ft = ft.low + ft.high * 2 ^ 32

pub to_file_time : ℕ → FileTime
to_file_time value = record { low = value % 2 ^ 32; high = value / 2 ^ 32 % 2 ^ 32 }

-- A 64-bit time survives the way through the two words, and words the way through a time.
pub file_time_roundtrip :
    (value : ℕ) (ft : FileTime)
    → value < 2 ^ 64
    → ft.low < 2 ^ 32
    → ft.high < 2 ^ 32
    → (from_file_time (to_file_time value) ≡ value) × (to_file_time (from_file_time ft) ≡ ft)
unfolding from_file_time to_file_time
file_time_roundtrip value ft v l h = (ground arith, ground arith)

-- `addMilliseconds`, on the unsigned 64-bit value
pub add_milliseconds : ℕ → ℤ → ℕ
add_milliseconds value n =
    (value + pos_part n * 10000 + 2 ^ 64 * 10000 - neg_part n * 10000 % 2 ^ 64) % 2 ^ 64
