-- ===== src/Error/Log.antt =====
-- src/SkBase/Error.cxx: what `logError` writes for each error of a chain.
use sketch.Base.{
  ◌≡◌, refl, sym, ap, ap₂, ◌∙◌, not, Option, none, some, List, [], ◌∷◌, ◌++◌, map, if◌then◌else◌,
  arith, append_assoc, Bool-cases, inl, inr,
}
use sketch.Base.Int.{pos, ◌==ℤ◌}
use sketch.Error.{
  Text, Error, Printer, Tag, code_hex, message_text, file_line, literal, expand, format, log_format,
  log_error, closing,
}
use sketch.Error.Format.{template, texts, format-template, ArePlain, render}

module _ (io : Printer) where
  -- The place, in its brackets.
  abbrev place_text : Error → Option Text → Text
  place_text e none = []
  place_text e (some f) = b' ' ∷ b'[' ∷ io.place f e.line ++ closing

  -- A line of the log: the code, if it is not zero, the message with the error's text, and the
  -- place, if a file is known.
  pub log_line : Error → Text
  log_line e =
      (if not (e.code ==ℤ pos 0) then io.hex e.code ++ b' ' ∷ [] else [])
      ++ (expand io e message_text ++ place_text e e.file)

  abbrev file_tags : Option Text → List Tag
  file_tags none = message_text ∷ []
  file_tags (some f) = message_text ∷ literal b' ' ∷ literal b'[' ∷ file_line ∷ literal b']' ∷ []

  abbrev log_tags : Error → List Tag
  log_tags e =
      if not (e.code ==ℤ pos 0)
      then code_hex ∷ literal b' ' ∷ file_tags e.file
      else file_tags e.file

  log_format-template : (e : Error) → log_format e ≡ template (log_tags e)
  unfolding log_format template render
  log_format-template e = ground arith

  log_tags-ArePlain : (e : Error) → ArePlain (log_tags e)
  log_tags-ArePlain e = ground arith

  file_texts :
      (e : Error) (o : Option Text)
      → e.file ≡ o
      → texts io e (file_tags o) ≡ expand io e message_text ++ place_text e o
  unfolding texts expand
  file_texts e none h = refl
  file_texts e (some f) h = rw h

  log_line-texts : (e : Error) → texts io e (log_tags e) ≡ log_line e
  unfolding log_line texts expand
  log_line-texts e = elim (Bool-cases (not (e.code ==ℤ pos 0))) [
    | inl c ↦
        let x : expand io e code_hex ≡ io.hex e.code = rw c in
        rw c (
          ap (λ h. h ++ b' ' ∷ texts io e (file_tags e.file)) x
          ∙ ap (λ l. io.hex e.code ++ (b' ' ∷ l)) (file_texts e e.file refl)
          ∙ sym (
              append_assoc (io.hex e.code) (b' ' ∷ [])
                (expand io e message_text ++ place_text e e.file)))
    | inr c ↦ rw c (file_texts e e.file refl)
  ]

  -- `logError` writes one line for each error, in the order of the chain, as `log_line` gives it.
  pub log_error-log_line : (es : List Error) → log_error io es ≡ map (λ e. some (log_line e)) es
  unfolding log_error
  log_error-log_line [] = refl
  log_error-log_line (e ∷ es) =
      ap₂ ◌∷◌
        (ap (λ p. format io e (some p)) (log_format-template e)
          ∙ format-template io e (log_tags e) (log_tags-ArePlain e)
          ∙ ap some (log_line-texts e))
        (log_error-log_line es)
