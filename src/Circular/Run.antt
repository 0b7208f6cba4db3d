-- ===== src/Circular/Run.antt =====
-- include/SkBase/CircularBuffer.hxx: sequences of calls at the two ends, against `Deque`.
use sketch.Base.{
  ℕ, suc, ◌≡◌, refl, sym, ap, ◌∙◌, List, [], ◌∷◌, ◌++◌, map, Option, some, arith, ◌==◌,
  if◌then◌else◌, length, drop, drop_last, Bool-cases, inl, inr, true, length_zero,
}
use sketch.Circular.{Ring, push_back, push_front, pop_back, pop_front}
use sketch.Circular.Window.{IsValid, contents, length-contents}
use sketch.Circular.Refine.{
  push_back-IsValid, push_front-IsValid, pop_back-IsValid, pop_front-IsValid, contents-push_back,
  contents-push_front, contents-pop_back, contents-pop_front,
}
use sketch.Circular.Deque
use sketch.Circular.Deque.{Op}

module _ {ℓ} {A : Type ℓ} where
  -- One call. A client pops only from a buffer that is not empty.
  unfoldable pub step : Ring A → Op A → Ring A
  step r (Deque.push_back x) = push_back r x
  step r (Deque.push_front x) = push_front r x
  step r Deque.pop_back = if r.size == 0 then r else pop_back r
  step r Deque.pop_front = if r.size == 0 then r else pop_front r

  unfoldable pub run : Ring A → List (Op A) → Ring A
  run r [] = r
  run r (op ∷ ops) = run (step r op) ops

  -- The same call on constructed slots.
  abbrev lift : Op A → Op (Option A)
  lift (Deque.push_back x) = Deque.push_back (some x)
  lift (Deque.push_front x) = Deque.push_front (some x)
  lift Deque.pop_back = Deque.pop_back
  lift Deque.pop_front = Deque.pop_front

  -- A single call keeps the invariant and the capacity.
  pub step-IsValid : (r : Ring A) (op : Op A) → IsValid r → IsValid (step r op)
  unfolding step
  step-IsValid r (Deque.push_back x) v = push_back-IsValid r v x
  step-IsValid r (Deque.push_front x) v = push_front-IsValid r v x
  step-IsValid r Deque.pop_back v = elim (Bool-cases (r.size == 0)) [
    | inl e ↦ rw e v
    | inr e ↦ rw e (pop_back-IsValid r v (ground arith))
  ]
  step-IsValid r Deque.pop_front v = elim (Bool-cases (r.size == 0)) [
    | inl e ↦ rw e v
    | inr e ↦ rw e (pop_front-IsValid r v (ground arith))
  ]

  cap-step : (r : Ring A) (op : Op A) → (step r op).cap ≡ r.cap
  unfolding step push_back push_front pop_back pop_front
  cap-step r (Deque.push_back x) = ground arith
  cap-step r (Deque.push_front x) = ground arith
  cap-step r Deque.pop_back = ground arith
  cap-step r Deque.pop_front = ground arith

  contents-empty : (r : Ring A) → (r.size == 0) ≡ true → contents r ≡ []
  contents-empty r e = length_zero (contents r) (length-contents r ∙ ground arith)

  contents-step :
      (r : Ring A) (op : Op A)
      → IsValid r
      → contents (step r op) ≡ Deque.step r.cap (contents r) (lift op)
  unfolding step Deque.step
  contents-step r (Deque.push_back x) v = contents-push_back r v x
  contents-step r (Deque.push_front x) v = contents-push_front r v x
  contents-step r Deque.pop_back v = elim (Bool-cases (r.size == 0)) [
    | inl e ↦ rw e (contents-empty r e ∙ ap drop_last (sym (contents-empty r e)))
    | inr e ↦ rw e (contents-pop_back r v (ground arith))
  ]
  contents-step r Deque.pop_front v = elim (Bool-cases (r.size == 0)) [
    | inl e ↦ rw e (contents-empty r e ∙ ap (drop 1) (sym (contents-empty r e)))
    | inr e ↦ rw e (contents-pop_front r v (ground arith))
  ]

  map-drop_last : (xs : List A) → drop_last (map some xs) ≡ map some (drop_last xs)
  map-drop_last [] = refl
  map-drop_last (x ∷ []) = refl
  map-drop_last (x ∷ y ∷ xs) = ap (λ l. some x ∷ l) (map-drop_last (y ∷ xs))

  map-drop : (xs : List A) → drop 1 (map some xs) ≡ map some (drop 1 xs)
  map-drop [] = refl
  map-drop (x ∷ xs) = refl

  map-snoc : (xs : List A) (x : A) → map some xs ++ some x ∷ [] ≡ map some (xs ++ x ∷ [])
  map-snoc [] x = refl
  map-snoc (y ∷ xs) x = ap (λ l. some y ∷ l) (map-snoc xs x)

  length-map : (xs : List A) → length (map some xs) ≡ length xs
  length-map [] = refl
  length-map (x ∷ xs) = ap suc (length-map xs)

  lift-step :
      (cap : ℕ) (xs : List A) (op : Op A)
      → Deque.step cap (map some xs) (lift op) ≡ map some (Deque.step cap xs op)
  unfolding Deque.step
  lift-step cap xs (Deque.push_back x) = elim (Bool-cases (length xs == cap)) [
    | inl e ↦ elim (Bool-cases (cap == 0)) [
      | inl z ↦ rw (length-map xs, e, z)
      | inr z ↦
          rw (length-map xs, e, z)
            (ap (λ l. l ++ some x ∷ []) (map-drop xs) ∙ map-snoc (drop 1 xs) x)
    ]
    | inr e ↦ rw (length-map xs, e) (map-snoc xs x)
  ]
  lift-step cap xs (Deque.push_front x) = elim (Bool-cases (length xs == cap)) [
    | inl e ↦ elim (Bool-cases (cap == 0)) [
      | inl z ↦ rw (length-map xs, e, z)
      | inr z ↦ rw (length-map xs, e, z) (ap (λ l. some x ∷ l) (map-drop_last xs))
    ]
    | inr e ↦ rw (length-map xs, e)
  ]
  lift-step cap xs Deque.pop_back = map-drop_last xs
  lift-step cap xs Deque.pop_front = map-drop xs

  -- From a valid buffer that holds the elements `xs`, any sequence of pushes and pops leaves a
  -- valid buffer of the same capacity that holds, in constructed slots, what the bounded queue
  -- holds.
  pub run_refines :
      (ops : List (Op A)) (r : Ring A) (xs : List A)
      → IsValid r
      → contents r ≡ map some xs
      → IsValid (run r ops)
        × ((run r ops).cap ≡ r.cap)
        × (contents (run r ops) ≡ map some (Deque.run r.cap xs ops))
  unfolding run Deque.run
  run_refines [] r xs v e = (v, refl, e)
  run_refines (op ∷ ops) r xs v e =
      let rest = run_refines ops (step r op) (Deque.step r.cap xs op) (step-IsValid r op v) (
        contents-step r op v
        ∙ (ap (λ l. Deque.step r.cap l (lift op)) e ∙ lift-step r.cap xs op)) in
      (
        rest.0,
        rest.1 ∙ cap-step r op,
        rest.2 ∙ ap (λ c. map some (Deque.run c (Deque.step r.cap xs op) ops)) (cap-step r op),
      )
