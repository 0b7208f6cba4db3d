-- ===== src/Error.antt =====
-- include/SkBase/Error.hxx and src/SkBase/Error.cxx: an error, its text by a format, and the log of
-- an error with what caused it. A string is the list of its UTF-16 units before the terminator.
pub mod Format
pub mod Log
mod Tests
use Prim.Native.Char
use Prim.Native.String.{String}
use mathlib.Core.List.{flat_map}
use sketch.Base.{
  ℕ, zero, suc, ◌+◌, Bool, true, false, not, ◌&&◌, ◌||◌, Option, none, some, List, [], ◌∷◌, ◌++◌,
  length, drop, ◌==◌, if◌then◌else◌,
}
use sketch.Base.Int.{ℤ, pos, negsuc, ◌==ℤ◌}

abbrev pub Text : Type 0
Text = List ℕ

-- `type_name` and `error_text` are what the virtual functions of the error's class return.
pub record Error : Type 0 where
  pub type_name : Text
  pub error_text : Text
  pub code : ℤ
  pub message : Text
  pub file : Option Text
  pub line : ℤ

-- `String::format` at the formats `%d`, `%08x` and `%S:%d`, which the C library prints.
pub record Printer : Type 0 where
  pub decimal : ℤ → Text
  pub hex : ℤ → Text
  pub place : Text → ℤ → Text

-- The tags of a format, `literal` being one unit that stands for itself.
pub data Tag : Type 0 where
  brace type code_dec code_hex message text message_text file line file_line : Tag
  literal : ℕ → Tag

-- `*(p + k)`; at the end stands the terminator.
abbrev pub unit_at : Text → ℕ → ℕ
unit_at [] k = 0
unit_at (c ∷ cs) zero = c
unit_at (c ∷ cs) (suc k) = unit_at cs k

abbrev pub is_at : Text → ℕ → ℕ → Bool
is_at p k c = unit_at p k == c

-- What stands at `p`, and how many units it takes.
pub recognise : Text → Tag × ℕ
recognise p =
    if not (is_at p 0 b'{')
    then (literal (unit_at p 0), 1)
    else if is_at p 1 b'{'
    then (brace, 2)
    else if is_at p 1 b'T' && is_at p 2 b'}'
    then (type, 3)
    else if is_at p 1 b'C' && (is_at p 2 b'd' && is_at p 3 b'}')
    then (code_dec, 4)
    else if is_at p 1 b'C' && (is_at p 2 b'x' && is_at p 3 b'}')
    then (code_hex, 4)
    else if is_at p 1 b'M' && is_at p 2 b'}'
    then (message, 3)
    else if is_at p 1 b'S' && is_at p 2 b'}'
    then (text, 3)
    else if is_at p 1 b'M' && (is_at p 2 b'S' && is_at p 3 b'}')
    then (message_text, 4)
    else if is_at p 1 b'F' && is_at p 2 b'}'
    then (file, 3)
    else if is_at p 1 b'L' && is_at p 2 b'}'
    then (line, 3)
    else if is_at p 1 b'F' && (is_at p 2 b'L' && is_at p 3 b'}')
    then (file_line, 4)
    else (literal (unit_at p 0), 1)

abbrev pub is_empty : Text → Bool
is_empty [] = true
is_empty (c ∷ cs) = false

abbrev pub opening : Text
opening = b' ' ∷ b'[' ∷ []

abbrev pub closing : Text
closing = b']' ∷ []

abbrev pub without_file : Text
without_file = b'{' ∷ b'M' ∷ b'S' ∷ b'}' ∷ []

abbrev pub with_file : Text
with_file = b'{' ∷ b'M' ∷ b'S' ∷ b'}' ∷ b' ' ∷ b'[' ∷ b'{' ∷ b'F' ∷ b'L' ∷ b'}' ∷ b']' ∷ []

-- The format that `logError` uses for one error.
pub log_format : Error → Text
log_format e =
    let rest : Text = elim e.file [ none ↦ without_file | some f ↦ with_file ] in
    if not (e.code ==ℤ pos 0) then b'{' ∷ b'C' ∷ b'x' ∷ b'}' ∷ b' ' ∷ rest else rest

module _ (io : Printer) where
  -- What is appended to the result for a tag.
  pub expand : Error → Tag → Text
  expand e brace = b'{' ∷ []
  expand e type = e.type_name
  expand e code_dec = if not (e.code ==ℤ pos 0) then io.decimal e.code else []
  expand e code_hex = if not (e.code ==ℤ pos 0) then io.hex e.code else []
  expand e message = e.message
  expand e text = e.error_text
  expand e message_text =
      if not (is_empty e.message) && not (is_empty e.error_text)
      then e.message ++ (opening ++ (e.error_text ++ closing))
      else e.message ++ e.error_text
  expand e file = elim e.file [ none ↦ [] | some f ↦ f ]
  expand e line = if not (e.line ==ℤ pos 0) then io.decimal e.line else []
  expand e file_line = elim e.file [ none ↦ [] | some f ↦ io.place f e.line ]
  expand e (literal c) = c ∷ []

  -- The loop of `format`; `none` means that the fuel ran out.
  pub format_loop : ℕ → Error → Text → Text → Option Text
  format_loop zero e result p = none
  format_loop (suc fuel) e result [] = some result
  format_loop (suc fuel) e result (c ∷ cs) =
      let found = recognise (c ∷ cs) in
      format_loop fuel e (result ++ expand e found.0) (drop found.1 (c ∷ cs))

  -- `Error::format`; `none` stands for a null format, which gives the empty string.
  pub format : Error → Option Text → Option Text
  format e none = some []
  format e (some p) = format_loop (suc (length p)) e [] p

  -- `logError`: a line for the error, and one for each error inside it, outermost first.
  pub log_error : List Error → List (Option Text)
  log_error [] = []
  log_error (e ∷ inner) = format e (some (log_format e)) ∷ log_error inner

abbrev pub codes : String → Text
codes String.[] = []
codes (String.◌∷◌ c s) = Char.code c ∷ codes s

-- `GenericError::errorText`
pub generic_error_text : ℤ → Text
generic_error_text code =
    if code ==ℤ negsuc 0
    then codes "Unknown error"
    else if code ==ℤ negsuc 1
    then codes "Out of memory"
    else if code ==ℤ negsuc 2
    then codes "Timed out"
    else if code ==ℤ negsuc 3
    then codes "Invalid argument"
    else if code ==ℤ negsuc 4
    then codes "Not implemented"
    else if code ==ℤ negsuc 5
    then codes "Invalid request"
    else []
