-- ===== src/Circular/Edit/Erase.antt =====
-- include/SkBase/CircularBuffer.hxx: `erase(iterator pos)` removes one element.
use sketch.Base.{
  ℕ, suc, ◌+◌, ◌-◌, ◌<◌, ◌≡◌, refl, sym, ap, ap₂, ◌∙◌, ◌++◌, some, none, arith, ◌==◌, if◌then◌else◌,
  update, take, drop,
}
use sketch.Circular.{Ring, increment, decrement}
use sketch.Circular.Pointer.{wrap, increment-wrap}
use sketch.Circular.Window.{IsValid, window, contents, window-update}
use sketch.Circular.Ends.{window-drop, window-take}
use sketch.Circular.Edit.{erase}
use sketch.Circular.Edit.Shift.{
  window_ext, window-append, lowered, lowered_out, window-lowered, shift_down-eq,
}

module _ {ℓ} {A : Type ℓ} (r : Ring A) (v : IsValid r) (i : ℕ) (lt : i < r.size) where
  abbrev pos : ℕ
  pos = wrap r.cap (r.first + i)

  -- how many elements stand behind the erased one
  abbrev behind : ℕ
  behind = r.size - 1 - i

  -- The buffer that `erase` leaves.
  pub erased : Ring A
  erased = record r {
    slot = update (lowered r.cap r.slot pos behind) (decrement r.cap r.last) none;
    last = decrement r.cap r.last;
    size = r.size - 1;
  }

  pos-lt : pos < r.cap
  pos-lt = ground arith

  erase-eq : erase r pos ≡ some (erased, if i + 1 == r.size then none else some pos)
  unfolding erase erased
  erase-eq =
      let e =
        shift_down-eq r.cap r.slot pos behind r.last (r.cap + 1) pos-lt (omega arith) (ground arith)
          (omega arith) in
      let t : (decrement r.cap r.last == pos) ≡ (i + 1 == r.size) =
        unfold decrement in ground arith in
      rw (e, t)

  erased-IsValid : IsValid erased
  unfolding erased decrement
  erased-IsValid = ground arith

  contents-erased : contents erased ≡ take i (contents r) ++ drop (suc i) (contents r)
  unfolding erased
  contents-erased =
      let S = lowered r.cap r.slot pos behind in
      let f : r.first < r.cap = omega arith in
      let c : r.size - 1 ≡ i + behind = omega arith in
      let n : behind ≡ r.size - suc i = omega arith in
      window-update S r.cap r.first (r.size - 1) (r.size - 1) (decrement r.cap r.last) none f
        (omega arith) (omega arith) (unfold decrement in ground arith)
      ∙ ap (λ k. window S r.cap r.first k) c
      ∙ window-append r.cap S r.first i behind pos f (omega arith) refl
      ∙ ap₂ ◌++◌
          (window_ext r.cap S r.slot r.first i f (omega arith) (λ j h.
              lowered_out r.cap r.slot pos behind (r.cap - i + j) (wrap r.cap (r.first + j)) pos-lt
                (omega arith) (omega arith) (ground arith))
            ∙ sym (window-take r.slot r.cap r.first i r.size (omega arith)))
          (window-lowered r.cap r.slot pos behind pos-lt (omega arith)
            ∙ ap (λ k. window r.slot r.cap (increment r.cap pos) k) n
            ∙ sym (
                window-drop r.slot r.cap r.first (suc i) r.size (increment r.cap pos) f
                  (omega arith) v.small (ground (arith, increment-wrap r.cap pos pos-lt))))

  -- In a valid buffer `erase` at the position of the `i`-th element returns, removes exactly that
  -- element, keeps the invariant, and gives the iterator of the element behind it.
  pub contents-erase :
      (out : Ring A) × (erase r pos ≡ some (out, if i + 1 == r.size then none else some pos))
      × IsValid out
      × (contents out ≡ take i (contents r) ++ drop (suc i) (contents r))
  contents-erase = (erased, erase-eq, erased-IsValid, contents-erased)
