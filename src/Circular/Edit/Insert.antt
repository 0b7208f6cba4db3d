-- ===== src/Circular/Edit/Insert.antt =====
-- include/SkBase/CircularBuffer.hxx: `insert(iterator pos, item)` of one element.
use sketch.Base.{
  ℕ, suc, ◌+◌, ◌-◌, ◌<◌, ◌≡◌, ◌≢◌, refl, sym, ap, ap₂, ◌∙◌, List, ◌∷◌, ◌++◌, Option, some, none,
  arith, ◌==◌, if◌then◌else◌, update, update_self, update_ne, Bool-cases, ◌&&◌, ◌⊎◌, inl, inr, take,
  drop, true, false,
}
use sketch.Circular.{Ring, increment, full, push_back}
use sketch.Circular.Pointer.{wrap, increment-wrap, increment-lt}
use sketch.Circular.Window.{IsValid, window, contents, window-update}
use sketch.Circular.Ends.{window-drop, window-take}
use sketch.Circular.Edit.{insert, insert_item, place, begin}
use sketch.Circular.Edit.Shift.{
  window_ext, window-append, raised, raised_out, window-raised, shift_up-eq,
}

-- A list with one more element at position `i`.
abbrev pub insert_at {ℓ} : {A : Type ℓ} → ℕ → A → List A → List A
insert_at i x xs = take i xs ++ x ∷ drop i xs

module _ {ℓ} {A : Type ℓ} (r : Ring A) (v : IsValid r) (i : ℕ) (lt : i < r.size) (x : A) where
  abbrev pub pos : ℕ
  pos = wrap r.cap (r.first + i)

  abbrev tail : ℕ
  tail = r.size - i

  pub slots : ℕ → Option A
  slots = raised r.cap r.slot pos tail

  pos-lt : pos < r.cap
  pos-lt = ground arith

  insert_item-eq : tail < r.cap → insert_item r (some pos) x ≡ some (place r pos x slots)
  unfolding insert_item slots
  insert_item-eq h =
      let e =
        shift_up-eq r.cap r.slot pos tail r.last (r.cap + 1) pos-lt h (ground arith)
          (omega arith) in
      rw e

  -- The storage after the loop and the write: the old elements with the new one at its place.
  window-place :
      tail < r.cap
      → window (update slots pos (some x)) r.cap pos (suc tail)
        ≡ some x ∷ window r.slot r.cap pos tail
  unfolding slots
  window-place h = ap₂ ◌∷◌ (update_self slots pos (some x)) (
      window-update slots r.cap (increment r.cap pos) tail (r.cap - 1) pos (some x)
        (increment-lt r.cap pos pos-lt) (omega arith) (omega arith)
        (ground (arith, increment-wrap r.cap pos pos-lt))
      ∙ window-raised r.cap r.slot pos tail pos-lt h)

  -- The slots before the new element are not written: those from the `k`-th on, `k` being 1 where
  -- the first element is overwritten.
  before :
      (k p n : ℕ)
      → k + n ≡ i
      → p ≡ wrap r.cap (r.first + k)
      → r.size < r.cap + k
      → window (update slots pos (some x)) r.cap p n ≡ window r.slot r.cap p n
  unfolding slots
  before k p n e q h =
      window_ext r.cap (update slots pos (some x)) r.slot p n (ground arith) (omega arith) (λ j b.
        update_ne slots pos (wrap r.cap (p + j)) (some x) (ground arith)
        ∙ raised_out r.cap r.slot pos tail (r.cap - i + k + j) (wrap r.cap (p + j)) pos-lt
            (omega arith) (omega arith) (ground arith))

  -- The new element and those before it, from the `k`-th on.
  around :
      (k p n m : ℕ)
      → k + n ≡ i
      → p ≡ wrap r.cap (r.first + k)
      → r.size < r.cap + k
      → tail < r.cap
      → m ≡ n + suc tail
      → window (update slots pos (some x)) r.cap p m
        ≡ window r.slot r.cap p n ++ some x ∷ drop i (contents r)
  around k p n m e q h t f =
      ap (λ c. window (update slots pos (some x)) r.cap p c) f
      ∙ window-append r.cap (update slots pos (some x)) p n (suc tail) pos (ground arith)
          (omega arith) (ground arith)
      ∙ ap₂ ◌++◌ (before k p n e q h) (
          window-place t
          ∙ ap (λ l. some x ∷ l)
              (sym (
                window-drop r.slot r.cap r.first i r.size pos (omega arith) (omega arith) v.small
                  refl)))

  taken : take i (contents r) ≡ window r.slot r.cap r.first i
  taken = window-take r.slot r.cap r.first i r.size (omega arith)

  place-room : r.size < r.cap → contents (place r pos x slots).0 ≡ insert_at i (some x) (contents r)
  unfolding place
  place-room h =
      let e : full r ≡ false = ground arith in
      rw (e, taken)
        (around 0 r.first i (r.size + 1) (omega arith) (ground arith) (omega arith) (omega arith)
          (omega arith))

  place-full :
      r.size ≡ r.cap
      → i ≢ 0
      → contents (place r pos x slots).0 ≡ drop 1 (insert_at i (some x) (contents r))
  unfolding place
  place-full h z =
      let e : full r ≡ true = ground arith in
      let s : i ≡ suc (i - 1) = omega arith in
      let l : increment r.cap r.last ≡ increment r.cap r.first =
        ap (increment r.cap) (ground arith) in
      let a =
        around 1 (increment r.cap r.first) (i - 1) r.size (omega arith)
          (increment-wrap r.cap r.first (omega arith)) (omega arith) (omega arith) (omega arith) in
      rw (e, l, taken)
        (a
          ∙ ap (λ (w : List (Option A)). drop 1 (w ++ some x ∷ drop i (contents r)))
              (ap (λ k. window r.slot r.cap r.first k) (sym s)))

  place-IsValid : (r.size < r.cap) ⊎ (i ≢ 0) → IsValid (place r pos x slots).0
  unfolding place increment
  place-IsValid h = ground arith

  insert-eq : (r.size < r.cap) ⊎ (i ≢ 0) → insert r (some pos) x ≡ some (place r pos x slots)
  unfolding insert
  insert-eq h =
      let z : (r.size == 0) ≡ false = ground arith in
      let t : (full r && (pos == r.first)) ≡ false = ground arith in
      rw (z, t) (insert_item-eq (ground arith))

  placed :
      (r.size < r.cap) ⊎ (i ≢ 0)
      → contents (place r pos x slots).0 ≡ (
          if full r
          then drop 1 (insert_at i (some x) (contents r))
          else insert_at i (some x) (contents r))
  placed h = elim (Bool-cases (full r)) [
    | inl f ↦ rw f (place-full (ground arith) (ground arith))
    | inr n ↦ rw n (place-room (ground arith))
  ]

  -- In a valid buffer `insert` before the `i`-th element returns, and puts the item there; a full
  -- buffer loses its first element for it. The invariant holds after, and the iterator is at the
  -- new element. Excluded is the position before the first element of a full buffer.
  pub contents-insert :
      (r.size < r.cap) ⊎ (i ≢ 0)
      → (out : Ring A) × (insert r (some pos) x ≡ some (out, some pos))
        × IsValid out
        × (contents out ≡ (
            if full r
            then drop 1 (insert_at i (some x) (contents r))
            else insert_at i (some x) (contents r)))
  unfolding place
  contents-insert h = ((place r pos x slots).0, insert-eq h, place-IsValid h, placed h)

module _ {ℓ} {A : Type ℓ} (r : Ring A) (v : IsValid r) (x : A) where
  -- At the first element of a full buffer nothing is inserted, and at the end of a buffer with
  -- storage `insert` is `push_back`.
  pub insert_ends :
      r.cap ≢ 0
      → (r.size ≡ r.cap → insert r (begin r) x ≡ some (r, begin r))
        × (insert r none x ≡ some (push_back r x, some r.last))
  unfolding insert insert_item place push_back
  insert_ends c = (
    λ f.
        let z : (r.size == 0) ≡ false = ground arith in
        let t : (r.cap == r.size) ≡ true = ground arith in
        let s : (r.first == r.first) ≡ true = ground arith in rw (z, t, s),
    elim (Bool-cases (r.cap == r.size)) [
      | inl t ↦ let z : (r.size == 0) ≡ false = ground arith in rw (t, z)
      | inr t ↦ rw t
    ],
  )
