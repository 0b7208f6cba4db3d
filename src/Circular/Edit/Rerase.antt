-- ===== src/Circular/Edit/Rerase.antt =====
-- include/SkBase/CircularBuffer.hxx: `rerase(iterator pos)` removes one element from the front
-- side.
use sketch.Base.{
  ℕ, zero, suc, ◌+◌, ◌-◌, ◌<◌, ◌≡◌, refl, sym, ap, ap₂, ◌∙◌, ◌++◌, some, none, arith, ◌==◌,
  if◌then◌else◌, update, take, drop, Option,
}
use sketch.Circular.{Ring, increment, decrement}
use sketch.Circular.Pointer.{wrap, increment-wrap, increment-lt}
use sketch.Circular.Window.{IsValid, window, contents, window-update}
use sketch.Circular.Ends.{window-drop, window-take}
use sketch.Circular.Edit.{rerase, shift_back, shift_up, begin}
use sketch.Circular.Edit.Shift.{
  window_ext, window-append, raised, raised_out, window-raised, shift_up-eq,
}

-- The loop of `rerase` is the one of `insert_item`, down to the first element.
shift_back-shift_up {ℓ} :
    {A : Type ℓ} (cap first fuel p : ℕ) (slot : ℕ → Option A)
    → shift_back cap first fuel p (decrement cap p) slot ≡ shift_up cap first fuel p slot
unfolding shift_back shift_up
shift_back-shift_up cap first zero p slot = refl
shift_back-shift_up cap first (suc fuel) p slot =
    ap (λ rest. if p == first then some slot else rest)
      (shift_back-shift_up cap first fuel (decrement cap p)
        (update slot p (slot (decrement cap p))))

module _ {ℓ} {A : Type ℓ} (r : Ring A) (v : IsValid r) (i : ℕ) (lt : i < r.size) where
  abbrev pos : ℕ
  pos = wrap r.cap (r.first + i)

  slots : ℕ → Option A
  slots = raised r.cap r.slot r.first i

  -- The buffer that `rerase` leaves.
  pub rerased : Ring A
  rerased = record r {
    slot = update slots r.first none;
    first = increment r.cap r.first;
    size = r.size - 1;
  }

  rerase-eq : rerase r pos ≡ some (rerased, if r.first == pos then begin rerased else some pos)
  unfolding rerase rerased slots
  rerase-eq =
      let f : r.first < r.cap = omega arith in
      let e =
        shift_up-eq r.cap r.slot r.first i pos (r.cap + 1) f (omega arith) refl (omega arith) in
      let b = shift_back-shift_up r.cap r.first (r.cap + 1) pos r.slot in rw (b, e)

  rerased-IsValid : IsValid rerased
  unfolding rerased increment
  rerased-IsValid = ground arith

  contents-rerased : contents rerased ≡ take i (contents r) ++ drop (suc i) (contents r)
  unfolding rerased slots
  contents-rerased =
      let S = raised r.cap r.slot r.first i in
      let p = increment r.cap r.first in
      let f : r.first < r.cap = omega arith in
      let g = increment-lt r.cap r.first f in
      let q = wrap r.cap (r.first + suc i) in
      let c : r.size - 1 ≡ i + (r.size - suc i) = omega arith in
      window-update S r.cap p (r.size - 1) (r.cap - 1) r.first none g (omega arith) (omega arith)
        (ground (arith, increment-wrap r.cap r.first f))
      ∙ ap (λ k. window S r.cap p k) c
      ∙ window-append r.cap S p i (r.size - suc i) q g (omega arith)
          (ground (arith, increment-wrap r.cap r.first f))
      ∙ ap₂ ◌++◌
          (window-raised r.cap r.slot r.first i f (omega arith)
            ∙ sym (window-take r.slot r.cap r.first i r.size (omega arith)))
          (window_ext r.cap S r.slot q (r.size - suc i) (ground arith) (omega arith) (λ j h.
              raised_out r.cap r.slot r.first i (suc i + j) (wrap r.cap (q + j)) f (omega arith)
                (omega arith) (ground arith))
            ∙ sym (window-drop r.slot r.cap r.first (suc i) r.size q f (omega arith) v.small refl))

  -- In a valid buffer `rerase` at the position of the `i`-th element returns, removes exactly that
  -- element, and keeps the invariant; its iterator is the position, or the new first element where
  -- the first one was removed.
  pub contents-rerase :
      (out : Ring A) × (rerase r pos ≡ some (out, if r.first == pos then begin out else some pos))
      × IsValid out
      × (contents out ≡ take i (contents r) ++ drop (suc i) (contents r))
  contents-rerase = (rerased, rerase-eq, rerased-IsValid, contents-rerased)
