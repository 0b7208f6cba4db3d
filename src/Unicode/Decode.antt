-- ===== src/Unicode/Decode.antt =====
-- include/SkBase/String.hxx: `_fromUtf8` against `_fromUtf16`, and its loop against
-- `_Utf8ToUtf16Len`.
use sketch.Base.{
  ℕ, ◌+◌, ◌*◌, ◌/◌, ◌%◌, ◌^◌, ◌≤◌, ◌<◌, ◌≡◌, ◌≢◌, refl, sym, ap, ◌∙◌, List, [], ◌∷◌, length, arith,
  true, false, ltb, ◌==◌, Bool-cases, inl, inr, some, length_zero,
}
use mathlib.Core.Option
use sketch.Unicode.{
  Round, first, second, third, utf16_len, write_utf16, from_utf8, from_counted, from_utf16,
  utf8_len, or_empty,
}
use sketch.Unicode.Encode.{utf8, put_unit, from_utf16-utf8}

-- Units of 16 bits of which none is null.
abbrev pub AreUnits : List ℕ → Type 0
AreUnits [] = Unit
AreUnits (u ∷ us) = ((u ≢ 0) × (u < 2 ^ 16)) × AreUnits us

-- A unit is read back from its one, two or three bytes.
utf16_len-put_unit :
    (result u : ℕ) (s : List ℕ)
    → u ≢ 0
    → u < 2 ^ 16
    → utf16_len first result (put_unit u s) ≡ utf16_len first (result + 1) s
unfolding utf16_len
utf16_len-put_unit result u s z b = elim (Bool-cases (ltb u 128)) [
  | inl t ↦ let e : (u == 0) ≡ false = ground arith in rw (t, e, t)
  | inr f ↦ elim (Bool-cases (ltb u 2048)) [
    | inl t ↦
        let a : (192 + u / 64 == 0) ≡ false = ground arith in
        let c : ltb (192 + u / 64) 128 ≡ false = ground arith in
        let d : ltb (192 + u / 64) 192 ≡ false = ground arith in
        let e : (128 + u % 64 == 0) ≡ false = ground arith in
        let g : ltb (192 + u / 64) 224 ≡ true = ground arith in rw (f, t, a, c, d, e, g)
    | inr m ↦
        let a : (224 + u / 4096 == 0) ≡ false = ground arith in
        let c : ltb (224 + u / 4096) 128 ≡ false = ground arith in
        let d : ltb (224 + u / 4096) 192 ≡ false = ground arith in
        let e : (128 + u / 64 % 64 == 0) ≡ false = ground arith in
        let g : ltb (224 + u / 4096) 224 ≡ false = ground arith in
        let k : (128 + u % 64 == 0) ≡ false = ground arith in rw (f, m, a, c, d, e, g, k)
  ]
]

write_utf16-put_unit :
    (required ui u : ℕ) (s : List ℕ)
    → u ≢ 0
    → u < 2 ^ 16
    → ui < required
    → write_utf16 first required ui (put_unit u s)
      ≡ Option.map (λ l. u ∷ l) (write_utf16 first required (ui + 1) s)
unfolding write_utf16
write_utf16-put_unit required ui u s z b h =
    let r : ltb ui required ≡ true = ground arith in
    elim (Bool-cases (ltb u 128)) [
      | inl t ↦ let e : (u == 0) ≡ false = ground arith in rw (t, r, e, t)
      | inr f ↦ elim (Bool-cases (ltb u 2048)) [
        | inl t ↦
            let a : (192 + u / 64 == 0) ≡ false = ground arith in
            let c : ltb (192 + u / 64) 128 ≡ false = ground arith in
            let d : ltb (192 + u / 64) 192 ≡ false = ground arith in
            let e : (128 + u % 64 == 0) ≡ false = ground arith in
            let g : ltb (192 + u / 64) 224 ≡ true = ground arith in
            let v : (192 + u / 64) % 32 * 64 + (128 + u % 64) % 128 ≡ u = ground arith in
            rw (f, t, r, a, c, d, e, g, v)
        | inr m ↦
            let a : (224 + u / 4096 == 0) ≡ false = ground arith in
            let c : ltb (224 + u / 4096) 128 ≡ false = ground arith in
            let d : ltb (224 + u / 4096) 192 ≡ false = ground arith in
            let e : (128 + u / 64 % 64 == 0) ≡ false = ground arith in
            let g : ltb (224 + u / 4096) 224 ≡ false = ground arith in
            let k : (128 + u % 64 == 0) ≡ false = ground arith in
            let v : ((224 + u / 4096) % 16 * 4096
                    + (128 + u / 64 % 64) % 128 * 64
                    + (128 + u % 64) % 128)
                  % 2 ^ 16
                ≡ u =
              ground arith in
            rw (f, m, r, a, c, d, e, g, k, v)
      ]
    ]

utf16_len-utf8 :
    (result : ℕ) (us : List ℕ)
    → AreUnits us
    → utf16_len first result (utf8 us) ≡ some (result + length us)
unfolding utf16_len utf8
utf16_len-utf8 result [] h = ap some (omega arith)
utf16_len-utf8 result (u ∷ us) h =
    let z : (u == 0) ≡ false = ground (arith, h.0.0) in
    rw z (
      utf16_len-put_unit result u (utf8 us) h.0.0 h.0.1
      ∙ utf16_len-utf8 (result + 1) us h.1
      ∙ ap some (omega arith))

write_utf16-utf8 :
    (required ui : ℕ) (us : List ℕ)
    → AreUnits us
    → ui + length us ≤ required
    → write_utf16 first required ui (utf8 us) ≡ some us
unfolding write_utf16 utf8
write_utf16-utf8 required ui [] h le = refl
write_utf16-utf8 required ui (u ∷ us) h le =
    let z : (u == 0) ≡ false = ground (arith, h.0.0) in
    rw z (
      write_utf16-put_unit required ui u (utf8 us) h.0.0 h.0.1 (omega arith)
      ∙ ap (Option.map (λ l. u ∷ l)) (write_utf16-utf8 required (ui + 1) us h.1 (omega arith)))

-- A string of units that are not null comes back unchanged from UTF-8, if its encoding has fewer
-- than 2^64 bytes.
pub from_utf8-from_utf16 :
    (us : List ℕ) → AreUnits us → utf8_len us < 2 ^ 64 → from_utf8 (from_utf16 us) ≡ some us
unfolding from_utf8 from_counted
from_utf8-from_utf16 us h k =
    let e = (from_utf16-utf8 us k).0 in
    let l : utf16_len first 0 (utf8 us) ≡ some (length us) =
      utf16_len-utf8 0 us h ∙ ap some (omega arith) in
    elim (Bool-cases (length us == 0)) [
      | inl t ↦ rw (e, l, t) (ap some (sym (length_zero us (ground arith))))
      | inr f ↦
          rw (e, l, f)
            (ap (λ o. some (or_empty o)) (write_utf16-utf8 (length us) 0 us h (omega arith)))
    ]

-- What a round that has begun found: there is room for its unit.
abbrev Room : Round → ℕ → ℕ → Type 0
Room first required ui = ui ≤ required
Room (second ch0) required ui = ui < required
Room (third ch0 ch1) required ui = ui < required

-- A step of the loop that writes a unit, where the rest of the bytes gives the rest of the units.
Decodes : Round → ℕ → ℕ → List ℕ → Type 0
Decodes r required ui us =
    (l : List ℕ) × (write_utf16 r required ui us ≡ some l) × (ui + length l ≡ required)

written :
    (required ui u : ℕ) (us : List ℕ)
    → Decodes first required (ui + 1) us
    → (l : List ℕ) × (Option.map (λ l. u ∷ l) (write_utf16 first required (ui + 1) us) ≡ some l)
      × (ui + length l ≡ required)
unfolding Decodes
written required ui u us h = (u ∷ h.0, ap (Option.map (λ l. u ∷ l)) h.1, omega (arith, h.2))

some_inj : {a b : ℕ} → some a ≡ some b → a ≡ b
some_inj e = ap (λ o. Option.get_or o 0) e

lt_of : (a b : ℕ) → ltb a b ≡ true → a < b
lt_of a b e = ground arith

at_end : (a b : ℕ) → a ≤ b → ltb a b ≡ false → a + 0 ≡ b
at_end a b l e = ground arith

ended : (required ui : ℕ) → some ui ≡ some required → ui + 0 ≡ required
ended required ui e = omega (arith, some_inj e)

decodes :
    (r : Round) (required ui : ℕ) (us : List ℕ)
    → required ≢ 0
    → Room r required ui
    → utf16_len r ui us ≡ some required
    → Decodes r required ui us
unfolding Decodes utf16_len write_utf16
decodes first required ui [] z h e = ([], refl, ended required ui e)
decodes (second ch0) required ui [] z h e = ([], refl, ended required ui e)
decodes (third ch0 ch1) required ui [] z h e = absurd (ground arith)
decodes first required ui (ch0 ∷ us) z h e = elim (Bool-cases (ltb ui required)) [
  | inr n ↦ rw n ([], refl, at_end ui required h n)
  | inl n ↦ elim (Bool-cases (ch0 == 0)) [
    | inl t ↦ rw (n, t) ([], refl, ended required ui (rw t at e))
    | inr f ↦ elim (Bool-cases (ltb ch0 128)) [
      | inl t ↦
          rw (n, f, t)
            (written required ui ch0 us (
              decodes first required (ui + 1) us z (omega (arith, lt_of ui required n))
                (rw (f, t) at e)))
      | inr g ↦ elim (Bool-cases (ltb ch0 192)) [
        | inl t ↦ absurd (z (sym (some_inj (rw (f, g, t) at e))))
        | inr k ↦
            rw (n, f, g, k)
              (decodes (second ch0) required ui us z (lt_of ui required n) (rw (f, g, k) at e))
      ]
    ]
  ]
]
decodes (second ch0) required ui (ch1 ∷ us) z h e = elim (Bool-cases (ch1 == 0)) [
  | inl t ↦ rw t ([], refl, ended required ui (rw t at e))
  | inr f ↦ elim (Bool-cases (ltb ch0 224)) [
    | inl t ↦
        rw (f, t)
          (written required ui (ch0 % 32 * 64 + ch1 % 128) us
            (decodes first required (ui + 1) us z (omega arith) (rw (f, t) at e)))
    | inr g ↦ rw (f, g) (decodes (third ch0 ch1) required ui us z h (rw (f, g) at e))
  ]
]
decodes (third ch0 ch1) required ui (ch2 ∷ us) z h e = elim (Bool-cases (ch2 == 0)) [
  | inl t ↦ rw t ([], refl, ended required ui (rw t at e))
  | inr f ↦ rw f (
      written required ui ((ch0 % 16 * 4096 + ch1 % 128 * 64 + ch2 % 128) % 2 ^ 16) us
        (decodes first required (ui + 1) us z (omega arith) (rw f at e)))
]

-- When `_Utf8ToUtf16Len` stays within the bytes it is given and counts `n` units, `_fromUtf8` gives
-- exactly `n` units: it neither leaves the buffer of that size nor leaves a part of it unwritten.
pub length-from_utf8 :
    (u8 : List ℕ) (n : ℕ)
    → utf16_len first 0 u8 ≡ some n
    → (us : List ℕ) × (from_utf8 u8 ≡ some us) × (length us ≡ n)
unfolding from_utf8 from_counted Decodes
length-from_utf8 u8 n e = elim (Bool-cases (n == 0)) [
  | inl t ↦ rw (e, t) ([], refl, ground arith)
  | inr f ↦
      let d = decodes first n 0 u8 (ground arith) (omega arith) e in
      rw (e, f, d.1) (d.0, refl, omega (arith, d.2))
]
