-- ===== src/Circular/Deque.antt =====
-- What include/SkBase/CircularBuffer.hxx promises at its ends: a double-ended queue of at most
-- `cap` elements that forgets the element at the other end when it is full.
use native.Mathlib.Decide.{dec_lt}
use sketch.Base.{
  ℕ, ◌≤◌, ◌<◌, ◌≡◌, ◌≢◌, List, [], ◌∷◌, ◌++◌, true, false, arith, drop, drop_last, length, ◌==◌,
  if◌then◌else◌,
}

pub data Op {ℓ} (A : Type ℓ) : Type ℓ where
  push_back : A → Op A
  push_front : A → Op A
  pop_back : Op A
  pop_front : Op A

module _ {ℓ} {A : Type ℓ} where
  unfoldable pub append : ℕ → List A → A → List A
  append cap xs x =
      if length xs == cap then (if cap == 0 then xs else drop 1 xs ++ x ∷ []) else xs ++ x ∷ []

  unfoldable pub prepend : ℕ → List A → A → List A
  prepend cap xs x =
      if length xs == cap then (if cap == 0 then xs else x ∷ drop_last xs) else x ∷ xs

  -- A pop of an empty queue does nothing.
  unfoldable pub step : ℕ → List A → Op A → List A
  unfolding append prepend
  step cap xs (push_back x) = append cap xs x
  step cap xs (push_front x) = prepend cap xs x
  step cap xs pop_back = drop_last xs
  step cap xs pop_front = drop 1 xs

  unfoldable pub run : ℕ → List A → List (Op A) → List A
  run cap xs [] = xs
  run cap xs (op ∷ ops) = run cap (step cap xs op) ops

  -- The branches of `append` and `prepend`.
  module _ (cap : ℕ) (xs : List A) (x : A) where
    pub append-room : length xs ≢ cap → append cap xs x ≡ xs ++ x ∷ []
    unfolding append
    append-room h = let e : (length xs == cap) ≡ false = ground arith in rw e

    pub append-full : length xs ≡ cap → cap ≢ 0 → append cap xs x ≡ drop 1 xs ++ x ∷ []
    unfolding append
    append-full h k =
        let e : (length xs == cap) ≡ true = ground arith in
        let z : (cap == 0) ≡ false = ground arith in rw (e, z)

    pub append-none : length xs ≡ cap → cap ≡ 0 → append cap xs x ≡ xs
    unfolding append
    append-none h k =
        let e : (length xs == cap) ≡ true = ground arith in
        let z : (cap == 0) ≡ true = ground arith in rw (e, z)

    pub prepend-room : length xs ≢ cap → prepend cap xs x ≡ x ∷ xs
    unfolding prepend
    prepend-room h = let e : (length xs == cap) ≡ false = ground arith in rw e

    pub prepend-full : length xs ≡ cap → cap ≢ 0 → prepend cap xs x ≡ x ∷ drop_last xs
    unfolding prepend
    prepend-full h k =
        let e : (length xs == cap) ≡ true = ground arith in
        let z : (cap == 0) ≡ false = ground arith in rw (e, z)

    pub prepend-none : length xs ≡ cap → cap ≡ 0 → prepend cap xs x ≡ xs
    unfolding prepend
    prepend-none h k =
        let e : (length xs == cap) ≡ true = ground arith in
        let z : (cap == 0) ≡ true = ground arith in rw (e, z)

-- How full a queue of `n` elements and room for `cap` is.
pub data Fill (n cap : ℕ) : Type 0 where
  room : n < cap → Fill n cap
  full : n ≡ cap → cap ≢ 0 → Fill n cap
  absent : n ≡ cap → cap ≡ 0 → Fill n cap

pub fill : (n cap : ℕ) → n ≤ cap → Fill n cap
fill n cap h = elim (dec_lt n cap) [
  | yes p ↦ room p
  | no p ↦ elim (dec_lt 0 cap) [
    | yes z ↦ full (omega arith) (omega arith)
    | no z ↦ absent (omega arith) (omega arith)
  ]
]
