-- ===== src/Error/Format.antt =====
-- src/SkBase/Error.cxx: `Error::format` ends, and puts each tag's text in its place.
use sketch.Base.{
  ℕ, zero, suc, ◌≤◌, ◌<◌, ◌≡◌, refl, sym, ap, ◌∙◌, false, Option, none, some, List, [], ◌∷◌, ◌++◌,
  length, drop, ◌==◌, arith, append-nil, append_assoc, length-append, length-drop, drop-append,
}
use sketch.Error.{
  Text, Error, Printer, Tag, brace, type, code_dec, code_hex, message, text, message_text, file,
  line, file_line, literal, recognise, expand, format_loop, format,
}

-- How a tag is written in a format.
unfoldable pub render : Tag → Text
render brace = b'{' ∷ b'{' ∷ []
render type = b'{' ∷ b'T' ∷ b'}' ∷ []
render code_dec = b'{' ∷ b'C' ∷ b'd' ∷ b'}' ∷ []
render code_hex = b'{' ∷ b'C' ∷ b'x' ∷ b'}' ∷ []
render message = b'{' ∷ b'M' ∷ b'}' ∷ []
render text = b'{' ∷ b'S' ∷ b'}' ∷ []
render message_text = b'{' ∷ b'M' ∷ b'S' ∷ b'}' ∷ []
render file = b'{' ∷ b'F' ∷ b'}' ∷ []
render line = b'{' ∷ b'L' ∷ b'}' ∷ []
render file_line = b'{' ∷ b'F' ∷ b'L' ∷ b'}' ∷ []
render (literal c) = c ∷ []

-- A literal unit is no opening brace.
abbrev pub IsPlain : Tag → Type 0
IsPlain (literal c) = (c == b'{') ≡ false
IsPlain _ = Unit

abbrev pub ArePlain : List Tag → Type 0
ArePlain [] = Unit
ArePlain (t ∷ ts) = IsPlain t × ArePlain ts

unfoldable pub template : List Tag → Text
template [] = []
template (t ∷ ts) = render t ++ template ts

recognise-render :
    (t : Tag) (rest : Text) → IsPlain t → recognise (render t ++ rest) ≡ (t, length (render t))
unfolding recognise render
recognise-render (literal c) rest h = rw h
recognise-render _ rest h = refl

-- A tag that is written takes at least one unit.
render-suc : (t : Tag) (rest : Text) → (c : ℕ) × (cs : Text) × (render t ++ rest ≡ c ∷ cs)
unfolding render
render-suc (literal c) rest = (c, rest, refl)
render-suc brace rest = (_, _, refl)
render-suc type rest = (_, _, refl)
render-suc code_dec rest = (_, _, refl)
render-suc code_hex rest = (_, _, refl)
render-suc message rest = (_, _, refl)
render-suc text rest = (_, _, refl)
render-suc message_text rest = (_, _, refl)
render-suc file rest = (_, _, refl)
render-suc line rest = (_, _, refl)
render-suc file_line rest = (_, _, refl)

render_pos : (t : Tag) → 1 ≤ length (render t)
unfolding render
render_pos (literal c) = omega arith
render_pos _ = omega arith

recognise_pos : (p : Text) → 1 ≤ (recognise p).1
unfolding recognise
recognise_pos p = ground arith

module _ (io : Printer) (e : Error) where
  format_loop_total :
      (fuel : ℕ) (result p : Text)
      → length p < fuel
      → (out : Text) × (format_loop io fuel e result p ≡ some out)
  unfolding format_loop
  format_loop_total zero result p h = absurd (omega arith)
  format_loop_total (suc fuel) result [] h = (result, refl)
  format_loop_total (suc fuel) result (c ∷ cs) h =
      format_loop_total fuel _ _
        (omega (arith, length-drop (recognise (c ∷ cs)).1 (c ∷ cs), recognise_pos (c ∷ cs)))

  -- `format` ends for every format, with as much fuel as it has units and one more.
  pub format_total : (p : Option Text) → (out : Text) × (format io e p ≡ some out)
  unfolding format
  format_total none = ([], refl)
  format_total (some p) = format_loop_total (suc (length p)) [] p (omega arith)

  -- The texts of the tags, one after the other.
  unfoldable pub texts : List Tag → Text
  texts [] = []
  texts (t ∷ ts) = expand io e t ++ texts ts

  format_loop-suc :
      (fuel : ℕ) (result p : Text) (c : ℕ) (cs : Text)
      → p ≡ c ∷ cs
      → format_loop io (suc fuel) e result p
        ≡ format_loop io fuel e (result ++ expand io e (recognise p).0) (drop (recognise p).1 p)
  unfolding format_loop
  format_loop-suc fuel result p c cs h = rw h

  format_loop-template :
      (ts : List Tag) (fuel : ℕ) (result : Text)
      → ArePlain ts
      → length (template ts) < fuel
      → format_loop io fuel e result (template ts) ≡ some (result ++ texts ts)
  unfolding template texts
  format_loop-template ts zero result h f = absurd (omega arith)
  format_loop-template [] (suc fuel) result h f =
      unfold format_loop in ap some (sym (append-nil result))
  format_loop-template (t ∷ ts) (suc fuel) result h f =
      let (c, cs, p) = render-suc t (template ts) in
      let n : 1 ≤ length (render t) =
        omega (arith, ap length p, length-append (render t) (template ts), render_pos t) in
      format_loop-suc fuel result (render t ++ template ts) c cs p
      ∙ rw
          (
            recognise-render t (template ts) h.0,
            drop-append (render t) (template ts) (length (render t)) refl,
          )
          (format_loop-template ts fuel (result ++ expand io e t) h.1
              (omega (arith, length-append (render t) (template ts)))
            ∙ ap some (append_assoc result (expand io e t) (texts ts)))

  -- A format that is written as tags and units other than an opening brace gives the texts of
  -- the tags and the units, in their order.
  pub format-template :
      (ts : List Tag) → ArePlain ts → format io e (some (template ts)) ≡ some (texts ts)
  unfolding format
  format-template ts h = format_loop-template ts (suc (length (template ts))) [] h (omega arith)
