-- ===== src/Strings/Text/Trim.antt =====
-- include/SkBase/String.hxx: what trimming takes off.
use sketch.Base.{
  ℕ, zero, suc, ◌≤◌, ◌<◌, ◌≡◌, refl, sym, ap, ap₂, ◌∙◌, arith, List, [], ◌∷◌, ◌++◌, Bool, true,
  false, ◌==◌, length, length-append, take, length-take, append-nil, append_assoc, Bool-cases, inl,
  inr,
}
use sketch.Strings.Text.{c_str, pass_spaces, trim_left, drop_spaces, trim_right, trim, unit_of}

abbrev pub NoZero : List ℕ → Type 0
NoZero [] = Unit
NoZero (x ∷ xs) = ((x == 0) ≡ false) × NoZero xs

c_str_whole : (xs : List ℕ) → NoZero xs → c_str xs ≡ xs
unfolding c_str
c_str_whole [] h = refl
c_str_whole (x ∷ xs) h = rw h.0 (ap (λ t. x ∷ t) (c_str_whole xs h.1))

take_next : (l : ℕ) (p : List ℕ) → l < length p → take (suc l) p ≡ take l p ++ unit_of p l ∷ []
take_next l [] h = absurd (omega arith)
take_next zero (x ∷ xs) h = refl
take_next (suc l) (x ∷ xs) h = ap (λ t. x ∷ t) (take_next l xs (omega arith))

unit_of_last : (xs : List ℕ) (x : ℕ) → unit_of (xs ++ x ∷ []) (length xs) ≡ x
unit_of_last [] x = refl
unit_of_last (y ∷ ys) x = unit_of_last ys x

last_unit : (xs ys : List ℕ) (x y : ℕ) → xs ++ x ∷ [] ≡ ys ++ y ∷ [] → x ≡ y
last_unit xs ys x y e =
    let long = ap length e in
    let same : length xs ≡ length ys =
      omega (arith, length-append xs (x ∷ []), length-append ys (y ∷ []), long) in
    sym (unit_of_last xs x) ∙ ap₂ (λ t n. unit_of t n) e same ∙ unit_of_last ys y

take-length : (p : List ℕ) → take (length p) p ≡ p
take-length [] = refl
take-length (x ∷ xs) = ap (λ u. x ∷ u) (take-length xs)

module _ (is_space : ℕ → Bool) where
  -- Every unit is a space
  abbrev pub Spaces : List ℕ → Type 0
  Spaces [] = Unit
  Spaces (x ∷ xs) = (is_space x ≡ true) × Spaces xs

  -- Neither the first nor the last unit is a space
  pub record IsTrimmed (text : List ℕ) : Type 0 where
    pub first : (x : ℕ) (xs : List ℕ) → text ≡ x ∷ xs → is_space x ≡ false
    pub last : (xs : List ℕ) (x : ℕ) → text ≡ xs ++ x ∷ [] → is_space x ≡ false

  Spaces-append : (xs ys : List ℕ) → Spaces xs → Spaces ys → Spaces (xs ++ ys)
  Spaces-append [] ys h g = g
  Spaces-append (x ∷ xs) ys h g = (h.0, Spaces-append xs ys h.1 g)

  skipped :
      (xs : List ℕ)
      → NoZero xs
      → (pre : List ℕ) × (xs ≡ pre ++ pass_spaces is_space xs)
        × Spaces pre
        × NoZero (pass_spaces is_space xs)
        × ((x : ℕ) (ys : List ℕ) → pass_spaces is_space xs ≡ x ∷ ys → is_space x ≡ false)
  unfolding pass_spaces
  skipped [] h = ([], refl, tt, tt, λ x ys e. absurd (ground arith))
  skipped (x ∷ xs) h = elim (Bool-cases (is_space x)) [
    | inl t ↦
        let rest = skipped xs h.1 in
        rw (h.0, t) (x ∷ rest.0, ap (λ u. x ∷ u) rest.1, (t, rest.2), rest.3, rest.4)
    | inr f ↦
        rw (h.0, f)
          ([], refl, tt, h, λ y ys e. let q : x ≡ y = ap (λ u. unit_of u 0) e in rw (← q) f)
  ]

  dropped :
      (p : List ℕ) (l : ℕ)
      → l ≤ length p
      → (post : List ℕ) × (take l p ≡ take (drop_spaces is_space p l) p ++ post)
        × Spaces post
        × ((xs : List ℕ) (x : ℕ)
            → take (drop_spaces is_space p l) p ≡ xs ++ x ∷ []
            → is_space x ≡ false)
  unfolding drop_spaces
  dropped p zero h = (
    [],
    refl,
    tt,
    λ xs x e. absurd (omega (arith, ap length e, length-append xs (x ∷ []), length-take 0 p)),
  )
  dropped p (suc l) h = elim (Bool-cases (is_space (unit_of p l))) [
    | inl t ↦
        let rest = dropped p l (omega arith) in
        rw t (
          rest.0 ++ unit_of p l ∷ [],
          take_next l p h
              ∙ ap (λ u. u ++ unit_of p l ∷ []) rest.1
              ∙ append_assoc (take (drop_spaces is_space p l) p) rest.0 (unit_of p l ∷ []),
          Spaces-append rest.0 _ rest.2 (t, tt),
          rest.3,
        )
    | inr f ↦ rw f (
      [],
      sym (append-nil (take (suc l) p)),
      tt,
      λ xs x e. ap is_space (last_unit xs (take l p) x (unit_of p l) (sym e ∙ take_next l p h)) ∙ f,
    )
  ]

  first_stays :
      (text post : List ℕ)
      → ((x : ℕ) (ys : List ℕ) → text ++ post ≡ x ∷ ys → is_space x ≡ false)
      → (x : ℕ) (ys : List ℕ) → text ≡ x ∷ ys
      → is_space x ≡ false
  first_stays text post h x ys e = h x (ys ++ post) (ap (λ u. u ++ post) e)

-- For a text without a '\0' inside, `trim` gives the text without some spaces before it and some
-- behind it, and what it gives neither begins nor ends with a space
pub trim_ends :
    (is_space : ℕ → Bool) (text : List ℕ)
    → NoZero text
    → (pre : List ℕ) × (post : List ℕ) × (text ≡ pre ++ (trim is_space text ++ post))
      × Spaces is_space pre
      × Spaces is_space post
      × IsTrimmed is_space (trim is_space text)
unfolding trim trim_right trim_left
trim_ends is_space text h =
    let left = skipped is_space text h in
    let u = pass_spaces is_space text in
    let right = dropped is_space u (length u) (omega arith) in
    let whole = take-length u in
    rw (c_str_whole u left.3) (
      left.0,
      right.0,
      left.1 ∙ ap (λ v. left.0 ++ v) (sym whole ∙ right.1),
      left.2,
      right.2,
      record {
        first = first_stays is_space _ right.0 (λ x ys e. left.4 x ys (sym whole ∙ right.1 ∙ e));
        last = right.3;
      },
    )
