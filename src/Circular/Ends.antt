-- ===== src/Circular/Ends.antt =====
-- include/SkBase/CircularBuffer.hxx: what can be read of a buffer, and where its elements lie.
use sketch.Base.{
  ℕ, zero, suc, ◌+◌, ◌-◌, ◌≤◌, ◌<◌, ◌≡◌, ◌≢◌, ◌↔◌, ◌⊎◌, refl, sym, ap, ap₂, ◌∙◌, List, [], ◌∷◌,
  ◌++◌, Option, some, arith, ◌==◌, if◌then◌else◌, drop, take, get_elem?, Bool-cases, inl, inr, true,
  false, ltb, leb, append-nil,
}
use sketch.Circular.{
  Ring, front, back, at, array_one, array_two, is_uninitialized, erase_begin, erase_end, add, sub,
  increment,
}
use sketch.Circular.Pointer.{wrap, add-wrap, increment-wrap, increment-lt}
use sketch.Circular.Window.{IsValid, window, contents, get_elem?-window}

module _ {ℓ} {A : Type ℓ} (r : Ring A) (v : IsValid r) where
  -- In a valid buffer `operator[]` reads the element at a position below the size, counted from the
  -- oldest.
  pub at-get_elem? : (i : ℕ) → i < r.size → get_elem? (contents r) i ≡ some (at r i)
  unfolding at
  at-get_elem? i h =
      get_elem?-window r.slot r.cap r.first r.size i (add r.cap r.first i) (omega arith) v.small h
        (add-wrap r.cap r.first i (omega arith) (omega arith))

  -- In a valid buffer that is not empty `front` and `back` read the first and the last element.
  pub front-back_ends :
      r.size ≢ 0
      → (get_elem? (contents r) 0 ≡ some (front r))
        × (get_elem? (contents r) (r.size - 1) ≡ some (back r))
  unfolding front back
  front-back_ends h = (
    get_elem?-window r.slot r.cap r.first r.size 0 r.first (omega arith) v.small (omega arith)
        (ground arith),
    get_elem?-window r.slot r.cap r.first r.size (r.size - 1) _ (omega arith) v.small (omega arith)
        (ground arith),
  )

  -- The two arrays together hold every element once, each within the storage.
  pub arrays_bounds :
      ((array_one r).1 + (array_two r).1 ≡ r.size)
      × ((array_one r).0 + (array_one r).1 ≤ r.cap)
      × ((array_two r).0 + (array_two r).1 ≤ (array_one r).0)
  unfolding array_one array_two
  arrays_bounds = ground arith

  -- The element, if any, that stands in slot `p`.
  abbrev position : ℕ → ℕ
  position p = if leb r.first p then p - r.first else p + r.cap - r.first

  is_uninitialized-false :
      (p : ℕ)
      → r.size < r.cap
      → p < r.cap
      → is_uninitialized r p ≡ false
      → r.size ≢ 0
      → (r.last ≤ r.first) ⊎ (r.first ≡ 0)
      → (position p < r.size) × (wrap r.cap (r.first + position p) ≡ p)
  unfolding is_uninitialized
  is_uninitialized-false p h k f n w = ground arith

  is_uninitialized-true :
      (p i : ℕ)
      → r.size < r.cap
      → p < r.cap
      → is_uninitialized r p ≡ true
      → i < r.size
      → wrap r.cap (r.first + i) ≢ p
  unfolding is_uninitialized
  is_uninitialized-true p i h k t lt = ground arith

  -- In a valid buffer with elements and with room, whose elements start at the storage's start or
  -- go round its end, `is_uninitialized` is true of a pointer exactly if no element is there.
  pub is_uninitialized_iff :
      (p : ℕ)
      → r.size ≢ 0
      → r.size < r.cap
      → p < r.cap
      → (r.last ≤ r.first) ⊎ (r.first ≡ 0)
      → (is_uninitialized r p ≡ true) ↔ ((i : ℕ) → i < r.size → wrap r.cap (r.first + i) ≢ p)
  is_uninitialized_iff p n h k w = (
    λ t i lt. is_uninitialized-true p i h k t lt,
    λ f. elim (Bool-cases (is_uninitialized r p)) [
      | inl t ↦ t
      | inr e ↦
          let at_p = is_uninitialized-false p h k e n w in absurd (f (position p) at_p.0 at_p.1)
    ],
  )

  -- In a valid buffer whose elements lie in one piece, `is_uninitialized` is false of the slots
  -- before the first element, though no element is there.
  pub is_uninitialized_misses :
      (p : ℕ)
      → r.first < r.last
      → p < r.first
      → (is_uninitialized r p ≡ false) × ((i : ℕ) → i < r.size → wrap r.cap (r.first + i) ≢ p)
  unfolding is_uninitialized
  is_uninitialized_misses p h k = (ground arith, λ i lt. ground arith)

  pub erase_begin-IsValid : (n : ℕ) → n ≤ r.size → IsValid (erase_begin r n)
  unfolding erase_begin add
  erase_begin-IsValid n h = ground arith

  pub erase_end-IsValid : (n : ℕ) → n ≤ r.size → IsValid (erase_end r n)
  unfolding erase_end sub
  erase_end-IsValid n h = ground arith

module _ {ℓ} {B : Type ℓ} (slot : ℕ → B) (cap : ℕ) where
  -- `k` consecutive slots, with no wrap.
  abbrev pub segment : ℕ → ℕ → List B
  segment p zero = []
  segment p (suc k) = slot p ∷ segment (p + 1) k

  window-segment : (p k : ℕ) → p + k < cap → window slot cap p k ≡ segment p k
  window-segment p zero h = refl
  window-segment p (suc k) h =
      let e : increment cap p ≡ p + 1 = unfold increment in ground arith in
      ap (λ l. slot p ∷ l) (rw e (window-segment (p + 1) k (omega arith)))

  window-wrapped :
      (p k m : ℕ)
      → p < cap
      → p + k ≡ cap
      → m ≤ p
      → window slot cap p (k + m) ≡ segment p k ++ segment 0 m
  window-wrapped p zero m h e k = absurd (omega arith)
  window-wrapped p (suc zero) m h e k =
      let s : 1 + m ≡ suc m = omega arith in
      let z : increment cap p ≡ 0 = unfold increment in ground arith in
      rw (s, z)
        (ap (λ l. slot p ∷ l)
          (elim (Bool-cases (ltb m cap)) [
            | inl t ↦ window-segment 0 m (ground arith)
            | inr t ↦ absurd (ground arith)
          ]))
  window-wrapped p (suc (suc k)) m h e le =
      let s : suc (suc k) + m ≡ suc (suc k + m) = omega arith in
      let z : increment cap p ≡ p + 1 = unfold increment in ground arith in
      rw (s, z)
        (ap (λ l. slot p ∷ l)
          (window-wrapped (p + 1) (suc k) m (omega arith) (omega arith) (omega arith)))

  pub window-drop :
      (p n m q : ℕ)
      → p < cap
      → n ≤ m
      → m ≤ cap
      → q ≡ wrap cap (p + n)
      → drop n (window slot cap p m) ≡ window slot cap q (m - n)
  window-drop p zero m q h le k e =
      let d : p ≡ q = ground arith in
      let z : m ≡ m - 0 = omega arith in ap₂ (λ i j. window slot cap i j) d z
  window-drop p (suc n) zero q h le k e = absurd (omega arith)
  window-drop p (suc n) (suc m) q h le k e =
      let z : m - n ≡ suc m - suc n = omega arith in
      window-drop (increment cap p) n m q (increment-lt cap p h) (omega arith) (omega arith)
        (ground (arith, increment-wrap cap p h))
      ∙ ap (λ j. window slot cap q j) z

  pub window-take : (p n m : ℕ) → n ≤ m → take n (window slot cap p m) ≡ window slot cap p n
  window-take p zero m le = refl
  window-take p (suc n) zero le = absurd (omega arith)
  window-take p (suc n) (suc m) le =
      ap (λ l. slot p ∷ l) (window-take (increment cap p) n m (omega arith))

module _ {ℓ} {A : Type ℓ} (r : Ring A) (v : IsValid r) where
  abbrev arrays : ℕ → ℕ → List (Option A)
  arrays a b = segment r.slot r.cap r.first a ++ segment r.slot r.cap 0 b

  arrays-contents_empty : r.size ≡ 0 → arrays (array_one r).1 (array_two r).1 ≡ contents r
  unfolding array_one array_two
  arrays-contents_empty z =
      let a : (array_one r).1 ≡ 0 = ground arith in
      let b : (array_two r).1 ≡ 0 = ground arith in
      ap₂ arrays a b ∙ ap (λ n. window r.slot r.cap r.first n) (sym z)

  arrays-contents_wrapped :
      r.last ≤ r.first → r.size ≢ 0 → arrays (array_one r).1 (array_two r).1 ≡ contents r
  unfolding array_one array_two
  arrays-contents_wrapped w z =
      let k = r.cap - r.first in
      let a : (array_one r).1 ≡ k = ground arith in
      let b : (array_two r).1 ≡ r.last = ground arith in
      let s : k + r.last ≡ r.size = ground arith in
      ap₂ arrays a b
      ∙ sym (window-wrapped r.slot r.cap r.first k r.last (omega arith) (omega arith) w)
      ∙ ap (λ n. window r.slot r.cap r.first n) s

  arrays-contents_linear : r.first < r.last → arrays (array_one r).1 (array_two r).1 ≡ contents r
  unfolding array_one array_two
  arrays-contents_linear w =
      let a : (array_one r).1 ≡ r.size = ground arith in
      let b : (array_two r).1 ≡ 0 = ground arith in
      ap₂ arrays a b
      ∙ append-nil _
      ∙ sym (window-segment r.slot r.cap r.first r.size (ground arith))

  -- The two arrays of a valid buffer, one after the other, are its elements in order.
  pub arrays-contents :
      segment r.slot r.cap (array_one r).0 (array_one r).1
        ++ segment r.slot r.cap (array_two r).0 (array_two r).1
      ≡ contents r
  unfolding array_one array_two
  arrays-contents = elim (Bool-cases (r.size == 0)) [
    | inl z ↦ arrays-contents_empty (ground arith)
    | inr z ↦ elim (Bool-cases (leb r.last r.first)) [
      | inl w ↦ arrays-contents_wrapped (ground arith) (ground arith)
      | inr w ↦ arrays-contents_linear (ground arith)
    ]
  ]

  -- `erase_begin` of a valid buffer of scalars drops the `n` oldest elements, `n` at most the size.
  pub erase_begin-contents : (n : ℕ) → n ≤ r.size → contents (erase_begin r n) ≡ drop n (contents r)
  unfolding erase_begin
  erase_begin-contents n h = elim (Bool-cases (r.cap == 0)) [
    | inl z ↦
        let e : n ≡ 0 = ground arith in
        let s : r.size ≡ 0 = ground arith in let t : r.size - n ≡ 0 = ground arith in rw (t, s, e)
    | inr z ↦ sym (
        window-drop r.slot r.cap r.first n r.size (add r.cap r.first n) (ground arith) h v.small
          (add-wrap r.cap r.first n (omega arith) (omega arith)))
  ]

  pub erase_end-contents :
      (n : ℕ) → n ≤ r.size → contents (erase_end r n) ≡ take (r.size - n) (contents r)
  unfolding erase_end
  erase_end-contents n h = sym (window-take r.slot r.cap r.first (r.size - n) r.size (omega arith))
