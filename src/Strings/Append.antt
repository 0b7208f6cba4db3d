-- ===== src/Strings/Append.antt =====
-- include/SkBase/String.hxx: what strings that share data see of each other.
use sketch.Base.{
  ℕ, suc, ◌+◌, ◌^◌, ◌≤◌, ◌<◌, ◌≡◌, ◌≢◌, refl, sym, ap, ◌∙◌, arith, List, [], ◌∷◌, ◌++◌, true, false,
  ◌==◌, ==_self, leb, if◌then◌else◌, length, length-append, Option, some, Bool-cases, inl, inr, ◌⊎◌,
}
use sketch.Base.Int.{ℤ, pos, ◌==ℤ◌, eq_of_parts, pos_part}
use sketch.RefCount.{lock}
use sketch.RefCount.Pointers.{more, fewer, recount}
use sketch.Strings.Capacity.Powers.{grow_to_ge}
use sketch.Strings.Store.{
  Store, drop, allocate, append_in_place, append_grown, append, starts_with_zero,
}
use sketch.Strings.Held.{allocate-IsHeld, in_place-IsHeld, IsHeld, drop-IsHeld}

lock_cases : (c : ℤ) → ((c ≡ pos 1) × (lock c ≡ (pos 2, true))) ⊎ (lock c ≡ (c, false))
unfolding lock
lock_cases c = elim (Bool-cases (c ==ℤ pos 1)) [
  | inl t ↦ inl (eq_of_parts c (pos 1) (ground arith), rw t refl)
  | inr f ↦ inr (rw f refl)
]

abbrev InPlace : Store → ℕ → List ℕ → Type 0
InPlace s p u16 =
    (p ≢ 0) × (s.objects.counter p ≡ pos 1) × (length (s.text p) + length u16 + 1 ≤ s.capacity p)

-- The three ways through `append`
append_cases :
    (s : Store) (n : ℕ → ℕ) (p : ℕ) (u16 : List ℕ) (allocated : Option ℕ)
    → IsHeld s n
    → starts_with_zero u16 ≡ false
    → (InPlace s p u16 × (append s p u16 allocated ≡ (append_in_place s p u16 (pos 2), p, true)))
      ⊎ (append s p u16 allocated ≡ append_grown s p u16 allocated)
unfolding append
append_cases s n p u16 allocated h z =
    let enough = Bool-cases (leb (length (s.text p) + length u16 + 1) (s.capacity p)) in
    elim (lock_cases (s.objects.counter p)) [
      | inl (one, locked) ↦ elim enough [
        | inl fit ↦
            let room : length (s.text p) + length u16 + 1 ≤ s.capacity p = ground arith in
            let usable : (s.capacity p == 0) ≡ false = ground arith in
            let other : p ≢ 0 = λ e. omega (arith, room, ap s.capacity e, h.fixed) in
            inl ((other, one, room), rw (z, usable, fit, locked) refl)
        | inr tight ↦ inr (elim (Bool-cases (s.capacity p == 0)) [
          | inl shut ↦ rw (z, shut) refl
          | inr usable ↦ rw (z, usable, tight) refl
        ])
      ]
      | inr shared ↦ inr (elim (Bool-cases (s.capacity p == 0)) [
        | inl shut ↦ rw (z, shut) refl
        | inr usable ↦ elim enough [
          | inl fit ↦ rw (z, usable, fit, shared) refl
          | inr tight ↦ rw (z, usable, tight) refl
        ]
      ])
    ]

bump : (s : Store) (n : ℕ → ℕ) (p : ℕ) → IsHeld s n → IsHeld s (fewer p (more p n))
bump s n p h =
    let same : (q : ℕ) → fewer p (more p n) q ≡ n q = λ q. omega arith in
    record {
      counted = recount s.objects n (fewer p (more p n)) (λ q z. sym (same q)) h.counted;
      static = h.static;
      blank = h.blank;
      fixed = h.fixed;
      room = λ q z k. h.room q z (λ e. k (same q ∙ e));
    }

grown-IsHeld :
    (s : Store) (n : ℕ → ℕ) (p : ℕ) (u16 : List ℕ) (a : ℕ)
    → IsHeld s n
    → n p ≢ 0
    → a ≢ 0
    → n a ≡ 0
    → starts_with_zero u16 ≡ false
    → length (s.text p) + length u16 + 1 < 2 ^ 60
    → IsHeld (append_grown s p u16 (some a)).0 (fewer p (more a n))
unfolding append_grown
grown-IsHeld s n p [] a h k z f w l = absurd (ground arith)
grown-IsHeld s n p (x ∷ xs) a h k z f w l =
    let room =
      grow_to_ge (length (s.text p) + 1) (length (s.text p) + suc (length xs) + 1) (omega arith)
        l in
    let wide = length-append (s.text p) (x ∷ xs) in
    drop-IsHeld _ (more a n) p (allocate-IsHeld s n a (s.text p ++ x ∷ xs) _ h z f (omega arith))
      (omega arith)

append_nothing :
    (s : Store) (p : ℕ) (u16 : List ℕ) (allocated : Option ℕ)
    → starts_with_zero u16 ≡ true
    → append s p u16 allocated ≡ (s, p, true)
unfolding append
append_nothing s p u16 allocated t = rw t refl

in_place_own :
    (s : Store) (p : ℕ) (u16 : List ℕ) → (append_in_place s p u16 (pos 2)).text p ≡ s.text p ++ u16
unfolding append_in_place
in_place_own s p u16 = rw (==_self p) refl

InPlace-others :
    (s : Store) (n : ℕ → ℕ) (p : ℕ) (u16 : List ℕ) (q : ℕ)
    → IsHeld s n
    → InPlace s p u16
    → fewer p n q ≢ 0
    → (append_in_place s p u16 (pos 2)).text q ≡ s.text q
unfolding append_in_place
InPlace-others s n p u16 q h place m = elim (Bool-cases (p == q)) [
  | inl t ↦
      let e : p ≡ q = ground arith in
      let one : pos (n p) ≡ pos 1 = sym (h.counted.counter p place.0) ∙ place.1 in
      absurd (m (rw (t, ← e) (omega (arith, ap pos_part one))))
  | inr f ↦ rw f refl
]

grown_own :
    (s : Store) (p : ℕ) (u16 : List ℕ) (a : ℕ)
    → (append_grown s p u16 (some a)).0.text a ≡ s.text p ++ u16
unfolding append_grown drop allocate
grown_own s p u16 a = rw (==_self a) refl

grown_others :
    (s : Store) (n : ℕ → ℕ) (p : ℕ) (u16 : List ℕ) (a q : ℕ)
    → n a ≡ 0
    → fewer p n q ≢ 0
    → (append_grown s p u16 (some a)).0.text q ≡ s.text q
unfolding append_grown drop allocate
grown_others s n p u16 a q f m = elim (Bool-cases (a == q)) [
  | inl t ↦ let e : a ≡ q = ground arith in absurd (m (omega (arith, f, ap n e)))
  | inr g ↦ rw g refl
]

-- Where `n` counts the strings at each data, a string with text shorter than 2 ^ 60 in all appends
-- `u16`, and the allocator's answer is not null and not in use, the strings are again counted right
-- with this one at the data that `append` leaves it at: each counter is the number of strings there,
-- no data with a string at it is freed, and every text fits its capacity with its '\0'
pub append-IsHeld :
    (s : Store) (n : ℕ → ℕ) (p : ℕ) (u16 : List ℕ) (a : ℕ)
    → IsHeld s n
    → n p ≢ 0
    → a ≢ 0
    → n a ≡ 0
    → length (s.text p) + length u16 + 1 < 2 ^ 60
    → IsHeld (append s p u16 (some a)).0 (fewer p (more (append s p u16 (some a)).1 n))
unfolding append_grown
append-IsHeld s n p u16 a h k z f l = elim (Bool-cases (starts_with_zero u16)) [
  | inl t ↦ rw (append_nothing s p u16 (some a) t) (bump s n p h)
  | inr t ↦ elim (append_cases s n p u16 (some a) h t) [
    | inl (place, e) ↦ rw e (bump _ n p (in_place-IsHeld s n p u16 h place.0 place.1 place.2))
    | inr e ↦ rw e (grown-IsHeld s n p u16 a h k z f t l)
  ]
]

-- The text that `append` leaves: a null or an empty source, or one that begins with '\0', adds
-- nothing
abbrev pub appended : List ℕ → List ℕ → List ℕ
appended text u16 = if starts_with_zero u16 then text else text ++ u16

-- Where `n` counts the strings at each data and the allocator's answer is not null and not in use,
-- `append(u16)` succeeds, this string has the units of `u16` behind its text (nothing is added when
-- `u16` is empty or begins with '\0'), and every other string, also one that shared its data, keeps
-- its text
pub append-text :
    (s : Store) (n : ℕ → ℕ) (p : ℕ) (u16 : List ℕ) (a : ℕ)
    → IsHeld s n
    → n p ≢ 0
    → a ≢ 0
    → n a ≡ 0
    → ((append s p u16 (some a)).2 ≡ true)
      × ((append s p u16 (some a)).0.text (append s p u16 (some a)).1 ≡ appended (s.text p) u16)
      × ((q : ℕ) → fewer p n q ≢ 0 → (append s p u16 (some a)).0.text q ≡ s.text q)
unfolding append_grown
append-text s n p u16 a h k z f = elim (Bool-cases (starts_with_zero u16)) [
  | inl t ↦ rw (append_nothing s p u16 (some a) t, t) (refl, refl, λ q m. refl)
  | inr t ↦ elim (append_cases s n p u16 (some a) h t) [
    | inl (place, e) ↦
        rw (e, t) (refl, in_place_own s p u16, λ q m. InPlace-others s n p u16 q h place m)
    | inr e ↦ rw (e, t) (refl, grown_own s p u16 a, λ q m. grown_others s n p u16 a q f m)
  ]
]
