-- ===== src/Unicode/Encode.antt =====
-- include/SkBase/Utf8String.hxx: `_fromUtf16` writes the encoding of its units, and no more bytes
-- than `_Utf16ToUtf8Len` counted.
use sketch.Base.{
  ℕ, ◌+◌, ◌-◌, ◌/◌, ◌%◌, ◌^◌, ◌≤◌, ◌<◌, ◌≡◌, refl, sym, ap, ◌∙◌, List, [], ◌∷◌, length, arith, true,
  false, ltb, leb, ◌==◌, if◌then◌else◌, Bool-cases, inl, inr, length_zero,
}
use sketch.Unicode.{utf8_len, write_utf8, from_utf16}

-- The bytes of one unit before those of the others, and of the units up to the first null.
abbrev pub put_unit : ℕ → List ℕ → List ℕ
put_unit u rest =
    if ltb u 128
    then u ∷ rest
    else if ltb u 2048
    then (192 + u / 64) ∷ (128 + u % 64) ∷ rest
    else (224 + u / 4096) ∷ (128 + u / 64 % 64) ∷ (128 + u % 64) ∷ rest

unfoldable pub utf8 : List ℕ → List ℕ
utf8 [] = []
utf8 (u ∷ us) = if u == 0 then [] else put_unit u (utf8 us)

length-utf8 : (us : List ℕ) → length (utf8 us) ≡ utf8_len us
unfolding utf8 utf8_len
length-utf8 [] = refl
length-utf8 (u ∷ us) = ground (arith, length-utf8 us)

write_utf8-utf8 :
    (required out : ℕ) (us : List ℕ)
    → out + utf8_len us ≤ required
    → required < 2 ^ 64
    → write_utf8 required out us ≡ utf8 us
unfolding write_utf8 utf8 utf8_len
write_utf8-utf8 required out [] h k = refl
write_utf8-utf8 required out (u ∷ us) h k = elim (Bool-cases (u == 0)) [
  | inl t ↦ rw t (ground arith)
  | inr f ↦ elim (Bool-cases (ltb u 128)) [
    | inl t ↦
        let h' : out + (1 + utf8_len us) ≤ required = rw (f, t) at h in
        let e : ltb out required ≡ true = ground arith in
        rw (e, f, t) (ap (λ l. u ∷ l) (write_utf8-utf8 required (out + 1) us (omega arith) k))
    | inr g ↦ elim (Bool-cases (ltb u 2048)) [
      | inl t ↦
          let h' : out + (2 + utf8_len us) ≤ required = rw (f, g, t) at h in
          let e : ltb out required ≡ true = ground arith in
          let b : leb ((required + 2 ^ 64 - 1) % 2 ^ 64) out ≡ false = ground arith in
          rw (e, f, g, t, b)
            (ap (λ l. (192 + u / 64) ∷ (128 + u % 64) ∷ l)
              (write_utf8-utf8 required (out + 2) us (omega arith) k))
      | inr m ↦
          let h' : out + (3 + utf8_len us) ≤ required = rw (f, g, m) at h in
          let e : ltb out required ≡ true = ground arith in
          let b : leb ((required + 2 ^ 64 - 2) % 2 ^ 64) out ≡ false = ground arith in
          rw (e, f, g, m, b)
            (ap (λ l. (224 + u / 4096) ∷ (128 + u / 64 % 64) ∷ (128 + u % 64) ∷ l)
              (write_utf8-utf8 required (out + 3) us (omega arith) k))
    ]
  ]
]

-- `_fromUtf16` writes the encoding of the units before the first null, whole, and as many bytes as
-- `_Utf16ToUtf8Len` counted, if those are fewer than 2^64.
pub from_utf16-utf8 :
    (us : List ℕ)
    → utf8_len us < 2 ^ 64
    → (from_utf16 us ≡ utf8 us) × (length (from_utf16 us) ≡ utf8_len us)
unfolding from_utf16
from_utf16-utf8 us k =
    let e : from_utf16 us ≡ utf8 us = elim (Bool-cases (utf8_len us == 0)) [
      | inl t ↦ rw t (sym (length_zero (utf8 us) (ground (arith, length-utf8 us))))
      | inr f ↦ rw f (write_utf8-utf8 (utf8_len us) 0 us (omega arith) k)
    ] in
    (e, ap length e ∙ length-utf8 us)
