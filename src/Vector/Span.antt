-- ===== src/Vector/Span.antt =====
-- include/SkBase/Vector.hxx: what an array holds, and when it is well formed.
use sketch.Base.{
  ℕ, zero, suc, ◌+◌, ◌-◌, ◌^◌, ◌≤◌, ◌<◌, ◌≡◌, refl, ap, ap₂, List, [], ◌∷◌, ◌++◌, Option, some,
  arith, true, ◌⊎◌, replicate, take, drop,
}
use sketch.Vector.{Vec}

module _ {ℓ} {B : Type ℓ} where
  -- The `n` slots from `p` on.
  abbrev pub span : (ℕ → B) → ℕ → ℕ → List B
  span f p zero = []
  span f p (suc n) = f p ∷ span f (suc p) n

  pub span_ext :
      (f g : ℕ → B) (p q n : ℕ)
      → ((j : ℕ) → j < n → f (p + j) ≡ g (q + j))
      → span f p n ≡ span g q n
  span_ext f g p q zero e = refl
  span_ext f g p q (suc n) e =
      ap₂ ◌∷◌
        (let a : p + 0 ≡ p = omega arith in
          let b : q + 0 ≡ q = omega arith in rw (a, b) at (e 0 (omega arith)))
        (span_ext f g (suc p) (suc q) n (λ j lt.
          let a : p + suc j ≡ suc p + j = omega arith in
          let b : q + suc j ≡ suc q + j = omega arith in rw (a, b) at (e (suc j) (omega arith))))

  pub span_same : (f g : ℕ → B) (n : ℕ) → ((j : ℕ) → j < n → f j ≡ g j) → span f 0 n ≡ span g 0 n
  span_same f g n e = span_ext f g 0 0 n (λ j lt. let a : 0 + j ≡ j = omega arith in rw a (e j lt))

  pub span-append : (f : ℕ → B) (p m n : ℕ) → span f p (m + n) ≡ span f p m ++ span f (p + m) n
  span-append f p zero n =
      let a : p + zero ≡ p = omega arith in let b : zero + n ≡ n = omega arith in rw (a, b)
  span-append f p (suc m) n =
      let a : p + suc m ≡ suc p + m = omega arith in
      let b : suc m + n ≡ suc (m + n) = omega arith in
      rw (a, b) (ap (λ l. f p ∷ l) (span-append f (suc p) m n))

  pub span-snoc : (f : ℕ → B) (n : ℕ) → span f 0 (n + 1) ≡ span f 0 n ++ f n ∷ []
  span-snoc f n = let a : 0 + n ≡ n = omega arith in rw a at (span-append f 0 n 1)

  pub span-replicate :
      (f : ℕ → B) (p n : ℕ) (x : B) → ((j : ℕ) → j < n → f (p + j) ≡ x) → span f p n ≡ replicate n x
  span-replicate f p zero x e = refl
  span-replicate f p (suc n) x e =
      ap₂ ◌∷◌ (let a : p + 0 ≡ p = omega arith in rw a at (e 0 (omega arith))) (
        span-replicate f (suc p) n x (λ j lt.
          let a : p + suc j ≡ suc p + j = omega arith in rw a at (e (suc j) (omega arith))))

  pub take-span : (f : ℕ → B) (p m n : ℕ) → m ≤ n → take m (span f p n) ≡ span f p m
  take-span f p zero n h = refl
  take-span f p (suc m) zero h = absurd (omega arith)
  take-span f p (suc m) (suc n) h = ap (λ l. f p ∷ l) (take-span f (suc p) m n (omega arith))

  pub drop-span : (f : ℕ → B) (p m n : ℕ) → m ≤ n → drop m (span f p n) ≡ span f (p + m) (n - m)
  drop-span f p zero n h =
      let a : p + zero ≡ p = omega arith in let b : n - zero ≡ n = omega arith in rw (a, b)
  drop-span f p (suc m) zero h = absurd (omega arith)
  drop-span f p (suc m) (suc n) h =
      let a : p + suc m ≡ suc p + m = omega arith in
      let b : suc n - suc m ≡ n - m = omega arith in
      rw (a, b) (drop-span f (suc p) m n (omega arith))

module _ {ℓ} {A : Type ℓ} where
  abbrev pub contents : Vec A → List (Option A)
  contents v = span v.mem 0 v.size

  -- An array fits its storage, and every element of it is constructed. Its capacity is small
  -- enough for `_capacity_factor` not to wrap.
  pub record IsValid (v : Vec A) : Type ℓ where
    pub fits : v.size ≤ v.cap
    pub small : v.cap < 2 ^ 61
    pub stored : v.begun ≡ true ⊎ (v.cap ≡ 0)
    pub live : (i : ℕ) → i < v.size → (x : A) × (v.mem i ≡ some x)
