-- ===== src/Circular/Edit/Shift.antt =====
-- include/SkBase/CircularBuffer.hxx: what the two moving loops of `erase` and `insert_item` do.
use sketch.Base.{
  ℕ, zero, suc, ◌+◌, ◌-◌, ◌≤◌, ◌<◌, ◌≡◌, refl, sym, ap, ap₂, ◌∙◌, [], ◌∷◌, ◌++◌, Option, some,
  arith, ◌==◌, update, update_ne, update_self, true, false,
}
use sketch.Circular.{increment, decrement}
use sketch.Circular.Pointer.{wrap, increment-wrap, increment-lt}
use sketch.Circular.Window.{window, window-snoc, window-update}
use sketch.Circular.Edit.{shift_down, shift_up}

module _ {ℓ} {B : Type ℓ} (cap : ℕ) where
  -- Two stores that agree on a window's slots have the same window.
  pub window_ext :
      (f g : ℕ → B) (p n : ℕ)
      → p < cap
      → n ≤ cap
      → ((j : ℕ) → j < n → f (wrap cap (p + j)) ≡ g (wrap cap (p + j)))
      → window f cap p n ≡ window g cap p n
  window_ext f g p zero h k e = refl
  window_ext f g p (suc n) h k e =
      ap₂ ◌∷◌ (let z : wrap cap (p + 0) ≡ p = ground arith in rw z at (e 0 (omega arith))) (
        window_ext f g (increment cap p) n (increment-lt cap p h) (omega arith) (λ j lt.
          let z : wrap cap (p + (j + 1)) ≡ wrap cap (increment cap p + j) =
            ground (arith, increment-wrap cap p h) in
          rw z at (e (j + 1) (omega arith))))

  pub window-append :
      (f : ℕ → B) (p i n q : ℕ)
      → p < cap
      → i ≤ cap
      → q ≡ wrap cap (p + i)
      → window f cap p (i + n) ≡ window f cap p i ++ window f cap q n
  window-append f p zero n q h k e =
      let z : q ≡ p = ground arith in let m : zero + n ≡ n = omega arith in rw (z, m)
  window-append f p (suc i) n q h k e =
      let m : suc i + n ≡ suc (i + n) = omega arith in
      rw m (
        ap (λ l. f p ∷ l)
          (window-append f (increment cap p) i n q (increment-lt cap p h) (omega arith)
            (ground (arith, increment-wrap cap p h))))

  -- The elements in the `n` slots behind `p`, each one place down.
  pub lowered : (ℕ → B) → ℕ → ℕ → ℕ → B
  lowered slot p zero = slot
  lowered slot p (suc n) = lowered (update slot p (slot (increment cap p))) (increment cap p) n

  pub lowered_out :
      (slot : ℕ → B) (p n m q : ℕ)
      → p < cap
      → n ≤ m
      → m < cap
      → q ≡ wrap cap (p + m)
      → lowered slot p n q ≡ slot q
  unfolding lowered
  lowered_out slot p zero m q h le k e = refl
  lowered_out slot p (suc n) m q h le k e =
      lowered_out (update slot p (slot (increment cap p))) (increment cap p) n (m - 1) q
        (increment-lt cap p h) (omega arith) (omega arith) (ground (arith, increment-wrap cap p h))
      ∙ update_ne slot p q _ (ground arith)

  pub window-lowered :
      (slot : ℕ → B) (p n : ℕ)
      → p < cap
      → n < cap
      → window (lowered slot p n) cap p n ≡ window slot cap (increment cap p) n
  unfolding lowered
  window-lowered slot p zero h k = refl
  window-lowered slot p (suc n) h k =
      let p' = increment cap p in
      let s = update slot p (slot p') in
      ap₂ ◌∷◌
        (lowered_out s p' n (cap - 1) p (increment-lt cap p h) (omega arith) (omega arith)
            (ground (arith, increment-wrap cap p h))
          ∙ update_self slot p (slot p'))
        (window-lowered s p' n (increment-lt cap p h) (omega arith)
          ∙ window-update slot cap (increment cap p') n (cap - 2) p (slot p')
              (increment-lt cap p' (increment-lt cap p h)) (omega arith) (omega arith)
              (ground
                (arith, increment-wrap cap p h, increment-wrap cap p' (increment-lt cap p h))))

  -- The elements in the `n` slots from `p` on, each one place up.
  pub raised : (ℕ → B) → ℕ → ℕ → ℕ → B
  raised slot p zero = slot
  raised slot p (suc n) = raised (update slot (wrap cap (p + suc n)) (slot (wrap cap (p + n)))) p n

  pub raised_out :
      (slot : ℕ → B) (p n m q : ℕ)
      → p < cap
      → n < m
      → m ≤ cap
      → q ≡ wrap cap (p + m)
      → raised slot p n q ≡ slot q
  unfolding raised
  raised_out slot p zero m q h le k e = refl
  raised_out slot p (suc n) m q h le k e =
      raised_out (update slot (wrap cap (p + suc n)) (slot (wrap cap (p + n)))) p n m q h
        (omega arith) k e
      ∙ update_ne slot (wrap cap (p + suc n)) q _ (ground arith)

  pub window-raised :
      (slot : ℕ → B) (p n : ℕ)
      → p < cap
      → n < cap
      → window (raised slot p n) cap (increment cap p) n ≡ window slot cap p n
  unfolding raised
  window-raised slot p zero h k = refl
  window-raised slot p (suc n) h k =
      let q = wrap cap (p + suc n) in
      let x = slot (wrap cap (p + n)) in
      let s = update slot q x in
      window-snoc (raised s p n) cap (increment cap p) n q (increment-lt cap p h) (omega arith)
        (ground (arith, increment-wrap cap p h))
      ∙ ap₂ (λ l y. l ++ y ∷ [])
          (window-raised s p n h (omega arith)
            ∙ window-update slot cap p n (suc n) q x h (omega arith) k refl)
          (raised_out s p n (suc n) q h (omega arith) (omega arith) refl ∙ update_self slot q x)
      ∙ sym (window-snoc slot cap p n (wrap cap (p + n)) h (omega arith) refl)

module _ {ℓ} {A : Type ℓ} (cap : ℕ) where
  -- The loop of `erase` ends, after as many rounds as there are elements behind `p`.
  pub shift_down-eq :
      (slot : ℕ → Option A) (p n last fuel : ℕ)
      → p < cap
      → n < cap
      → last ≡ wrap cap (p + suc n)
      → n < fuel
      → shift_down cap last fuel p (increment cap p) slot ≡ some (lowered cap slot p n)
  unfolding shift_down lowered
  shift_down-eq slot p n last zero h k e f = absurd (omega arith)
  shift_down-eq slot p zero last (suc fuel) h k e f =
      let t : (increment cap p == last) ≡ true = ground (arith, increment-wrap cap p h) in rw t
  shift_down-eq slot p (suc n) last (suc fuel) h k e f =
      let t : (increment cap p == last) ≡ false = ground (arith, increment-wrap cap p h) in
      rw t (
        shift_down-eq (update slot p (slot (increment cap p))) (increment cap p) n last fuel
          (increment-lt cap p h) (omega arith) (ground (arith, increment-wrap cap p h))
          (omega arith))

  -- The loop of `insert_item` ends, after as many rounds as there are elements from `p` on.
  pub shift_up-eq :
      (slot : ℕ → Option A) (p n src fuel : ℕ)
      → p < cap
      → n < cap
      → src ≡ wrap cap (p + n)
      → n < fuel
      → shift_up cap p fuel src slot ≡ some (raised cap slot p n)
  unfolding shift_up raised
  shift_up-eq slot p n src zero h k e f = absurd (omega arith)
  shift_up-eq slot p zero src (suc fuel) h k e f = let t : (src == p) ≡ true = ground arith in rw t
  shift_up-eq slot p (suc n) src (suc fuel) h k e f =
      let t : (src == p) ≡ false = ground arith in
      let d : decrement cap src ≡ wrap cap (p + n) = unfold decrement in ground arith in
      rw t (
        rw (d, e)
          (shift_up-eq (update slot (wrap cap (p + suc n)) (slot (wrap cap (p + n)))) p n
            (wrap cap (p + n)) fuel h (omega arith) refl (omega arith)))
