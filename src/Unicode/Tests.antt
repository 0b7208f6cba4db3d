-- ===== src/Unicode/Tests.antt =====
-- include/SkBase/Utf8String.hxx and include/SkBase/String.hxx: a few strings, by evaluation, and
-- the theorems at them.
use sketch.Base.{ℕ, ◌≡◌, refl, List, [], ◌∷◌, length, arith, some, none}
use sketch.Unicode.{
  from_utf16, from_utf8, from_counted, utf8_len, utf16_len, write_utf8, write_utf16, first,
}
use sketch.Unicode.Encode.{utf8, from_utf16-utf8}
use sketch.Unicode.Decode.{from_utf8-from_utf16, length-from_utf8}

-- An `A`, a Cyrillic letter, the euro sign, and their bytes.
abbrev units : List ℕ
units = 65 ∷ 1078 ∷ 8364 ∷ []

abbrev bytes : List ℕ
bytes = 65 ∷ 208 ∷ 182 ∷ 226 ∷ 130 ∷ 172 ∷ []

encode_run : from_utf16 units ≡ bytes
unfolding from_utf16 utf8_len write_utf8
encode_run = refl

decode_run : from_utf8 bytes ≡ some units
unfolding from_utf8 from_counted utf16_len write_utf16
decode_run = refl

-- A byte that only continues a unit makes the input invalid.
invalid_run : from_utf8 (65 ∷ 130 ∷ []) ≡ some []
unfolding from_utf8 from_counted utf16_len write_utf16
invalid_run = refl

from_utf16-utf8_example : (from_utf16 units ≡ bytes) × (length (from_utf16 units) ≡ 6)
unfolding utf8 utf8_len
from_utf16-utf8_example = from_utf16-utf8 units (omega arith)

from_utf8-from_utf16_example : from_utf8 (from_utf16 units) ≡ some units
unfolding utf8_len
from_utf8-from_utf16_example =
    from_utf8-from_utf16 units
      ((omega arith, omega arith), ((omega arith, omega arith), ((omega arith, omega arith), tt)))
      (omega arith)

counted : utf16_len first 0 bytes ≡ some 3
unfolding utf16_len
counted = refl

-- A third byte that is missing is read all the same.
overrun_run : utf16_len first 0 (226 ∷ 130 ∷ []) ≡ none
unfolding utf16_len
overrun_run = refl

length-from_utf8_example : (us : List ℕ) × (from_utf8 bytes ≡ some us) × (length us ≡ 3)
length-from_utf8_example = length-from_utf8 bytes 3 counted
