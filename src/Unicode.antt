-- ===== src/Unicode.antt =====
-- include/SkBase/Utf8String.hxx and include/SkBase/String.hxx: from UTF-16 to UTF-8 and back. A
-- string is the list of its units, whose end stands for the given length. A disjunction of disjoint
-- bits is a sum, and a mask or a shift is a remainder or a quotient. Memory is taken to be there.
pub mod Encode
pub mod Decode
mod Tests
use mathlib.Core.Option
use sketch.Base.{
  ℕ, ◌+◌, ◌-◌, ◌*◌, ◌/◌, ◌%◌, ◌^◌, List, [], ◌∷◌, Option, none, some, Bool, not, ltb, leb, ◌==◌,
  if◌then◌else◌,
}

-- `_Utf16ToUtf8Len`
pub utf8_len : List ℕ → ℕ
utf8_len [] = 0
utf8_len (uch ∷ us) =
    if uch == 0
    then 0
    else if ltb uch 128
    then 1 + utf8_len us
    else if ltb uch 2048
    then 2 + utf8_len us
    else 3 + utf8_len us

-- The loop of `_fromUtf16`, with `out` bytes written. The bounds are computed in `size_t`.
pub write_utf8 : ℕ → ℕ → List ℕ → List ℕ
write_utf8 required out [] = []
write_utf8 required out (uch ∷ us) =
    if not (ltb out required)
    then []
    else if uch == 0
    then []
    else if ltb uch 128
    then uch ∷ write_utf8 required (out + 1) us
    else if ltb uch 2048
    then (if leb ((required + 2 ^ 64 - 1) % 2 ^ 64) out
        then []
        else (192 + uch / 64) ∷ (128 + uch % 64) ∷ write_utf8 required (out + 2) us)
    else if leb ((required + 2 ^ 64 - 2) % 2 ^ 64) out
    then []
    else (224 + uch / 4096)
      ∷ (128 + uch / 64 % 64)
      ∷ (128 + uch % 64)
      ∷ write_utf8 required (out + 3) us

-- `_fromUtf16`
pub from_utf16 : List ℕ → List ℕ
from_utf16 u16 =
    let required = utf8_len u16 in if required == 0 then [] else write_utf8 required 0 u16

-- Which byte of a unit the decoder reads next, and the bytes `ch0` and `ch1` that it has read.
pub data Round : Type 0 where
  first : Round
  second : ℕ → Round
  third : ℕ → ℕ → Round

-- `_Utf8ToUtf16Len`, with `result` units counted. The third byte is read without a test that any
-- byte is left: `none` is a read behind the given length.
pub utf16_len : Round → ℕ → List ℕ → Option ℕ
utf16_len first result [] = some result
utf16_len (second ch0) result [] = some result
utf16_len (third ch0 ch1) result [] = none
utf16_len first result (ch0 ∷ us) =
    if ch0 == 0
    then some result
    else if ltb ch0 128
    then utf16_len first (result + 1) us
    else if ltb ch0 192
    then some 0
    else utf16_len (second ch0) result us
utf16_len (second ch0) result (ch1 ∷ us) =
    if ch1 == 0
    then some result
    else if ltb ch0 224
    then utf16_len first (result + 1) us
    else utf16_len (third ch0 ch1) result us
utf16_len (third ch0 ch1) result (ch2 ∷ us) =
    if ch2 == 0 then some result else utf16_len first (result + 1) us

-- The loop of `_fromUtf8`, with `ui` units written; `none` is the empty string of invalid input.
pub write_utf16 : Round → ℕ → ℕ → List ℕ → Option (List ℕ)
write_utf16 r required ui [] = some []
write_utf16 first required ui (ch0 ∷ us) =
    if not (ltb ui required)
    then some []
    else if ch0 == 0
    then some []
    else if ltb ch0 128
    then Option.map (λ l. ch0 ∷ l) (write_utf16 first required (ui + 1) us)
    else if ltb ch0 192
    then none
    else write_utf16 (second ch0) required ui us
write_utf16 (second ch0) required ui (ch1 ∷ us) =
    if ch1 == 0
    then some []
    else if ltb ch0 224
    then Option.map (λ l. (ch0 % 32 * 64 + ch1 % 128) ∷ l) (write_utf16 first required (ui + 1) us)
    else write_utf16 (third ch0 ch1) required ui us
write_utf16 (third ch0 ch1) required ui (ch2 ∷ us) =
    if ch2 == 0
    then some []
    else Option.map (λ l. ((ch0 % 16 * 4096 + ch1 % 128 * 64 + ch2 % 128) % 2 ^ 16) ∷ l)
        (write_utf16 first required (ui + 1) us)

abbrev pub or_empty : Option (List ℕ) → List ℕ
or_empty none = []
or_empty (some l) = l

-- `_fromUtf8`, where `none` is the read of `_Utf8ToUtf16Len` behind the given length
pub from_counted : Option ℕ → List ℕ → Option (List ℕ)
from_counted none u8 = none
from_counted (some required) u8 =
    some (if required == 0 then [] else or_empty (write_utf16 first required 0 u8))

pub from_utf8 : List ℕ → Option (List ℕ)
from_utf8 u8 = from_counted (utf16_len first 0 u8) u8
