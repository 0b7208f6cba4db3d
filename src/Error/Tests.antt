-- ===== src/Error/Tests.antt =====
-- src/SkBase/Error.cxx: formats as in tests/SkBase_test/Error_test.cpp, and the theorems at them.
use sketch.Base.{◌+◌, ◌≡◌, refl, none, some, List, [], ◌∷◌, ◌++◌, map}
use sketch.Base.Int.{ℤ, pos}
use sketch.Error.{
  Text, Error, Printer, Tag, codes, brace, message_text, file_line, literal, recognise, expand,
  format_loop, format, log_error, log_format, generic_error_text,
}
use sketch.Error.Format.{template, texts, format_total, format-template}
use sketch.Error.Log.{log_line, log_error-log_line}

-- A printer of digits below ten, enough to follow the places of the texts.
abbrev digit : ℤ → Text
digit (pos n) = (n + 48) ∷ []
digit _ = []

abbrev io : Printer
io = record { decimal = digit; hex = digit; place = λ f l. f ++ (b':' ∷ digit l) }

abbrev failed : Error
failed = record {
  type_name = codes "GenericError";
  error_text = codes "Timed out";
  code = pos 3;
  message = codes "wait";
  file = some (codes "a.cxx");
  line = pos 7;
}

abbrev cause : Error
cause = record failed { code = pos 0; file = none; error_text = [] }

format_runs :
    format io failed (some (codes "{{T} {T} {Cd} {MS} {FL} {X}"))
    ≡ some (codes "{T} GenericError 3 wait [Timed out] a.cxx:7 {X}")
unfolding format format_loop recognise expand
format_runs = refl

log_runs :
    log_error io (failed ∷ cause ∷ [])
    ≡ some (codes "3 wait [Timed out] [a.cxx:7]") ∷ some (codes "wait") ∷ []
unfolding log_error log_format format format_loop recognise expand
log_runs = refl

timed_out : generic_error_text (pos 0) ≡ []
unfolding generic_error_text
timed_out = refl

format_total_example : (out : Text) × (format io failed (some (codes "{M")) ≡ some out)
format_total_example = format_total io failed (some (codes "{M"))

abbrev tags : List Tag
tags = brace ∷ literal b'x' ∷ message_text ∷ file_line ∷ []

format-template_example : format io failed (some (template tags)) ≡ some (texts io failed tags)
format-template_example = format-template io failed tags (tt, (refl, (tt, (tt, tt))))

log_error-log_line_run :
    log_error io (failed ∷ cause ∷ []) ≡ map (λ e. some (log_line io e)) (failed ∷ cause ∷ [])
log_error-log_line_run = log_error-log_line io (failed ∷ cause ∷ [])
