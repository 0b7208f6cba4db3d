-- ===== src/Circular/Window.antt =====
-- include/SkBase/CircularBuffer.hxx: the elements of a buffer, read from `m_first` on, and what a
-- write to one slot does to them.
use sketch.Base.{
  ℕ, zero, suc, ◌+◌, ◌-◌, ◌≤◌, ◌<◌, ◌≡◌, refl, ap, ap₂, ◌∙◌, List, [], ◌∷◌, ◌++◌, Option, arith,
  update, update_ne, update_self, length, get_elem?, drop, drop_last, drop_last-append,
}
use sketch.Circular.{Ring, increment}
use sketch.Circular.Pointer.{wrap, increment-wrap, increment-lt}

-- The invariant: the pointers are in the storage, and `m_last` is `m_size` steps after `m_first`.
-- A buffer with no storage has both pointers at its start.
pub record IsValid {ℓ} {A : Type ℓ} (r : Ring A) : Type 0 where
  pub small : r.size ≤ r.cap
  pub first_in : r.first ≤ r.cap - 1
  pub last_at : r.last ≡ wrap r.cap (r.first + r.size)

module _ {ℓ} {B : Type ℓ} where
  -- The `n` slots from `p` on.
  abbrev pub window : (ℕ → B) → ℕ → ℕ → ℕ → List B
  window slot cap p zero = []
  window slot cap p (suc n) = slot p ∷ window slot cap (increment cap p) n

  pub length-window : (slot : ℕ → B) (cap p n : ℕ) → length (window slot cap p n) ≡ n
  length-window slot cap p zero = refl
  length-window slot cap p (suc n) = ap suc (length-window slot cap (increment cap p) n)

  pub window-snoc :
      (slot : ℕ → B) (cap p n q : ℕ)
      → p < cap
      → n < cap
      → q ≡ wrap cap (p + n)
      → window slot cap p (suc n) ≡ window slot cap p n ++ slot q ∷ []
  window-snoc slot cap p zero q h k e = ap (λ i. slot i ∷ []) (ground arith)
  window-snoc slot cap p (suc n) q h k e =
      ap (λ l. slot p ∷ l)
        (window-snoc slot cap (increment cap p) n q (increment-lt cap p h) (omega arith)
          (ground (arith, increment-wrap cap p h)))

  -- A write past the window leaves it alone.
  pub window-update :
      (slot : ℕ → B) (cap p n m q : ℕ) (v : B)
      → p < cap
      → n ≤ m
      → m < cap
      → q ≡ wrap cap (p + m)
      → window (update slot q v) cap p n ≡ window slot cap p n
  window-update slot cap p zero m q v h le k e = refl
  window-update slot cap p (suc n) m q v h le k e = ap₂ ◌∷◌ (update_ne slot q p v (ground arith)) (
      window-update slot cap (increment cap p) n (m - 1) q v (increment-lt cap p h) (omega arith)
        (omega arith) (ground (arith, increment-wrap cap p h)))

  pub get_elem?-window :
      (slot : ℕ → B) (cap p n i q : ℕ)
      → p < cap
      → n ≤ cap
      → i < n
      → q ≡ wrap cap (p + i)
      → get_elem? (window slot cap p n) i ≡ Option.some (slot q)
  get_elem?-window slot cap p zero i q h k lt e = absurd (omega arith)
  get_elem?-window slot cap p (suc n) zero q h k lt e =
      ap (λ j. Option.some (slot j)) (ground arith)
  get_elem?-window slot cap p (suc n) (suc i) q h k lt e =
      get_elem?-window slot cap (increment cap p) n i q (increment-lt cap p h) (omega arith)
        (omega arith) (ground (arith, increment-wrap cap p h))

abbrev pub contents {ℓ} : {A : Type ℓ} → Ring A → List (Option A)
contents r = window r.slot r.cap r.first r.size

pub length-contents {ℓ} : {A : Type ℓ} (r : Ring A) → length (contents r) ≡ r.size
length-contents r = length-window r.slot r.cap r.first r.size

-- The windows that the operations at the ends leave.
module _ {ℓ} {B : Type ℓ} (slot : ℕ → B) (cap p n : ℕ) where
  -- A write just behind the window extends it.
  pub window-extend :
      (q m : ℕ) (x : B)
      → p < cap
      → n < cap
      → q ≡ wrap cap (p + n)
      → m ≡ suc n
      → window (update slot q x) cap p m ≡ window slot cap p n ++ x ∷ []
  window-extend q m x h k e f = rw f (
      window-snoc (update slot q x) cap p n q h k e
      ∙ ap₂ (λ l y. l ++ y ∷ []) (window-update slot cap p n n q x h (omega arith) k e)
          (update_self slot q x))

  -- A write just before the window extends it at the front.
  pub window-prepend :
      (d m : ℕ) (x : B)
      → p < cap
      → d < cap
      → n < cap
      → increment cap d ≡ p
      → m ≡ suc n
      → window (update slot d x) cap d m ≡ x ∷ window slot cap p n
  window-prepend d m x h hd k e f =
      rw (f, e)
        (ap₂ ◌∷◌ (update_self slot d x) (
          window-update slot cap p n (cap - 1) d x h (omega arith) (omega arith)
            (ground (arith, increment-wrap cap d hd))))

  pub window-tail :
      (m : ℕ) → m ≡ suc n → drop 1 (window slot cap p m) ≡ window slot cap (increment cap p) n
  window-tail m e = rw e refl

  pub window-drop_last :
      (m : ℕ)
      → p < cap
      → n < cap
      → m ≡ suc n
      → drop_last (window slot cap p m) ≡ window slot cap p n
  window-drop_last m h k e = rw e (
      ap drop_last (window-snoc slot cap p n (wrap cap (p + n)) h k refl)
      ∙ drop_last-append (window slot cap p n) (slot (wrap cap (p + n))))
