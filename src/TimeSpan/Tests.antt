-- ===== src/TimeSpan/Tests.antt =====
-- include/SkBase/TimeSpan.hxx and include/SkBase/Time.hxx: the theorems at concrete times.
use sketch.Base.{◌+◌, ◌*◌, ◌/◌, ◌≡◌, arith}
use sketch.Base.Int.{pos}
use sketch.TimeSpan.{
  from_parts, to_days, to_hours, to_minutes, to_seconds, to_milliseconds, to_parts-from_parts,
  FileTime, from_file_time, to_file_time, file_time_roundtrip,
}

to_parts-from_parts_example :
    (to_days (from_parts 49 59 58 1) ≡ pos (49 / 24))
    × (to_hours (from_parts 49 59 58 1) ≡ pos 49)
    × (to_minutes (from_parts 49 59 58 1) ≡ pos (49 * 60 + 59))
    × (to_seconds (from_parts 49 59 58 1) ≡ pos ((49 * 60 + 59) * 60 + 58))
    × (to_milliseconds (from_parts 49 59 58 1) ≡ pos (((49 * 60 + 59) * 60 + 58) * 1000 + 1))
to_parts-from_parts_example =
    to_parts-from_parts 49 59 58 1 (omega arith) (omega arith) (omega arith)

abbrev epoch : FileTime
epoch = record { low = 0xd53e8000; high = 0x19db1de }

file_time_roundtrip_example :
    (from_file_time (to_file_time 5000000000) ≡ 5000000000)
    × (to_file_time (from_file_time epoch) ≡ epoch)
file_time_roundtrip_example =
    file_time_roundtrip 5000000000 epoch (omega arith) (omega arith) (omega arith)
