-- ===== src/Circular/Refine.antt =====
-- include/SkBase/CircularBuffer.hxx: the operations at the two ends implement `Deque`.
use sketch.Base.{
  ◌+◌, ◌-◌, ◌<◌, ◌≡◌, ◌≢◌, sym, ap, ◌∙◌, [], ◌∷◌, ◌++◌, some, none, arith, ◌==◌, drop, drop_last,
  true, false,
}
use sketch.Circular.{Ring, increment, decrement, push_back, push_front, pop_back, pop_front}
use sketch.Circular.Pointer.{increment-wrap, increment-lt, decrement-lt, increment-decrement}
use sketch.Circular.Window.{
  IsValid, contents, length-contents, window-update, window-extend, window-prepend, window-tail,
  window-drop_last,
}
use sketch.Circular.Deque
use sketch.Circular.Deque.{Op}

module _ {ℓ} {A : Type ℓ} (r : Ring A) (v : IsValid r) where
  pub push_back-IsValid : (x : A) → IsValid (push_back r x)
  unfolding push_back increment
  push_back-IsValid x = ground arith

  pub push_front-IsValid : (x : A) → IsValid (push_front r x)
  unfolding push_front decrement
  push_front-IsValid x = ground arith

  pub pop_back-IsValid : r.size ≢ 0 → IsValid (pop_back r)
  unfolding pop_back decrement
  pop_back-IsValid h = ground arith

  pub pop_front-IsValid : r.size ≢ 0 → IsValid (pop_front r)
  unfolding pop_front increment
  pop_front-IsValid h = ground arith

  -- With room left, the element goes behind the last one.
  push_back-room : (x : A) → r.size < r.cap → contents (push_back r x) ≡ contents r ++ some x ∷ []
  unfolding push_back
  push_back-room x h =
      let e : (r.cap == r.size) ≡ false = ground arith in
      rw e (
        window-extend r.slot r.cap r.first r.size r.last (r.size + 1) (some x) (omega arith) h
          v.last_at (omega arith))

  push_back-full :
      (x : A)
      → r.size ≡ r.cap
      → r.cap ≢ 0
      → contents (push_back r x) ≡ drop 1 (contents r) ++ some x ∷ []
  unfolding push_back
  push_back-full x h k =
      let e : (r.cap == r.size) ≡ true = ground arith in
      let e' : (r.size == 0) ≡ false = ground arith in
      let n = r.size - 1 in
      let l : r.last ≡ r.first = ground arith in
      rw (e, e', window-tail r.slot r.cap r.first n r.size (omega arith), l)
        (window-extend r.slot r.cap (increment r.cap r.first) n r.first r.size (some x)
          (increment-lt r.cap r.first (omega arith)) (omega arith)
          (ground (arith, increment-wrap r.cap r.first)) (omega arith))

  push_front-room : (x : A) → r.size < r.cap → contents (push_front r x) ≡ some x ∷ contents r
  unfolding push_front
  push_front-room x h =
      let e : (r.cap == r.size) ≡ false = ground arith in
      let f : r.first < r.cap = omega arith in
      rw e (
        window-prepend r.slot r.cap r.first r.size (decrement r.cap r.first) (r.size + 1) (some x) f
          (decrement-lt r.cap r.first f) h (increment-decrement r.cap r.first f) (omega arith))

  push_front-full :
      (x : A)
      → r.size ≡ r.cap
      → r.cap ≢ 0
      → contents (push_front r x) ≡ some x ∷ drop_last (contents r)
  unfolding push_front
  push_front-full x h k =
      let e : (r.cap == r.size) ≡ true = ground arith in
      let e' : (r.size == 0) ≡ false = ground arith in
      let n = r.size - 1 in
      let f : r.first < r.cap = omega arith in
      rw (e, e', window-drop_last r.slot r.cap r.first n r.size f (omega arith) (omega arith))
        (window-prepend r.slot r.cap r.first n (decrement r.cap r.first) r.size (some x) f
          (decrement-lt r.cap r.first f) (omega arith) (increment-decrement r.cap r.first f)
          (omega arith))

  -- `pop_back` removes the last element, and leaves its slot raw.
  pub contents-pop_back : r.size ≢ 0 → contents (pop_back r) ≡ drop_last (contents r)
  unfolding pop_back decrement
  contents-pop_back h =
      let n = r.size - 1 in
      let f : r.first < r.cap = omega arith in
      rw (window-drop_last r.slot r.cap r.first n r.size f (omega arith) (omega arith)) (
        window-update r.slot r.cap r.first n n (decrement r.cap r.last) none f (omega arith)
          (omega arith) (ground arith))

  -- `pop_front` removes the first element, and leaves its slot raw.
  pub contents-pop_front : r.size ≢ 0 → contents (pop_front r) ≡ drop 1 (contents r)
  unfolding pop_front
  contents-pop_front h =
      let n = r.size - 1 in
      let f : r.first < r.cap = omega arith in
      rw (window-tail r.slot r.cap r.first n r.size (omega arith)) (
        window-update r.slot r.cap (increment r.cap r.first) n (r.cap - 1) r.first none
          (increment-lt r.cap r.first f) (omega arith) (omega arith)
          (ground (arith, increment-wrap r.cap r.first)))

  push_back-none : (x : A) → r.cap ≡ 0 → push_back r x ≡ r
  unfolding push_back
  push_back-none x h = ground arith

  push_front-none : (x : A) → r.cap ≡ 0 → push_front r x ≡ r
  unfolding push_front
  push_front-none x h = ground arith

  -- `push_back` is the bounded queue's `append`, on every branch.
  pub contents-push_back :
      (x : A) → contents (push_back r x) ≡ Deque.append r.cap (contents r) (some x)
  contents-push_back x = elim (Deque.fill r.size r.cap v.small) [
    | Deque.room h ↦
        push_back-room x h
        ∙ sym (Deque.append-room r.cap (contents r) (some x) (rw (length-contents r) (omega arith)))
    | Deque.full h k ↦
        push_back-full x h k
        ∙ sym (Deque.append-full r.cap (contents r) (some x) (length-contents r ∙ h) k)
    | Deque.absent h k ↦
        ap contents (push_back-none x k)
        ∙ sym (Deque.append-none r.cap (contents r) (some x) (length-contents r ∙ h) k)
  ]

  -- `push_front` is the bounded queue's `prepend`, on every branch.
  pub contents-push_front :
      (x : A) → contents (push_front r x) ≡ Deque.prepend r.cap (contents r) (some x)
  contents-push_front x = elim (Deque.fill r.size r.cap v.small) [
    | Deque.room h ↦
        push_front-room x h
        ∙ sym
            (Deque.prepend-room r.cap (contents r) (some x) (rw (length-contents r) (omega arith)))
    | Deque.full h k ↦
        push_front-full x h k
        ∙ sym (Deque.prepend-full r.cap (contents r) (some x) (length-contents r ∙ h) k)
    | Deque.absent h k ↦
        ap contents (push_front-none x k)
        ∙ sym (Deque.prepend-none r.cap (contents r) (some x) (length-contents r ∙ h) k)
  ]
