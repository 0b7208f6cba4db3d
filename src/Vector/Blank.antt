-- ===== src/Vector/Blank.antt =====
-- include/SkBase/Vector.hxx: `_insert_blank_space` opens a gap.
use sketch.Base.{
  ℕ, ◌+◌, ◌-◌, ◌*◌, ◌%◌, ◌^◌, ◌≤◌, ◌<◌, ◌≡◌, ◌≢◌, refl, ap, ap₂, ◌∙◌, ◌++◌, Option, some, none,
  Bool, true, false, arith, ltb, leb, Bool-cases, ◌⊎◌, inl, inr, take, drop,
}
use sketch.Vector.{
  Vec, insert_blank_space, capacity_factor, give_back, move_front, move_across, move_tail,
}
use sketch.Vector.Span.{IsValid, span, span_ext, span-append, take-span, drop-span}
use sketch.Vector.Loops.{move_front_lem, move_across_lem, move_tail_lem}
use sketch.Vector.Grow.{capacity_factor_lem}

module _ {ℓ} {B : Type ℓ} where
  -- A store with a gap of `n` slots before the one at `p` of the first `k`.
  pub record Opened (f m : ℕ → B) (p n k : ℕ) : Type ℓ where
    pub below : (j : ℕ) → j < p → m j ≡ f j
    pub above : (j : ℕ) → j < k - p → m (p + n + j) ≡ f (p + j)

  pub span-Opened :
      (f m : ℕ → B) (p n k : ℕ)
      → p ≤ k
      → Opened f m p n k
      → span m 0 (k + n) ≡ take p (span f 0 k) ++ (span m p n ++ drop p (span f 0 k))
  span-Opened f m p n k h o =
      let a : k + n ≡ p + (n + (k - p)) = omega arith in
      let b : 0 + p ≡ p = omega arith in
      let t = take-span f 0 p k h in
      let d = drop-span f 0 p k h in
      rw (a, t, d, b)
        (rw b at (span-append m 0 p (n + (k - p)))
          ∙ ap₂ ◌++◌
              (span_ext m f 0 0 p (λ j lt. let c : 0 + j ≡ j = omega arith in rw c (o.below j lt)))
              (span-append m p n (k - p)
                ∙ ap (λ l. span m p n ++ l) (span_ext m f (p + n) p (k - p) o.above)))

-- What an insertion of `n` elements needs: there is room, or the allocator gives the new block.
abbrev pub Room {ℓ} : {A : Type ℓ} → (ℕ → Bool) → Vec A → ℕ → Type 0
Room alloc v n = (v.size + n ≤ v.cap) ⊎ (alloc (n + (v.cap + 4) * 2) ≡ true)

module _ {ℓ} {A : Type ℓ} (alloc : ℕ → Bool) (bounded : (n : ℕ) → alloc n ≡ true → n < 2 ^ 61)
    (v : Vec A) (h : IsValid v) (p n : ℕ) (le : p ≤ v.size) (big : n < 2 ^ 62) where
  cap_lem : (n + capacity_factor v.cap) % 2 ^ 64 ≡ n + (v.cap + 4) * 2
  cap_lem = let c = capacity_factor_lem v.cap h.small in omega (arith, c, h.small)

  across : ℕ → Option A
  across = move_across v.mem (v.size - p) (v.size + n) v.size (move_front v.mem p 0 (λ _. none))

  across-Opened : Opened v.mem across p n v.size
  unfolding across
  across-Opened = record {
    below = λ j lt.
        move_across_lem v.mem (v.size - p) (v.size + n) v.size (move_front v.mem p 0 (λ _. none)) j
          (omega arith) (omega arith)
        ∙ (let e : leb (v.size + n - (v.size - p)) j ≡ false = ground arith in
            rw e (move_front_lem v.mem p 0 (λ _. none) j ∙ ground arith));
    above = λ j lt.
        move_across_lem v.mem (v.size - p) (v.size + n) v.size (move_front v.mem p 0 (λ _. none))
          (p + n + j) (omega arith) (omega arith)
        ∙ (let e : leb (v.size + n - (v.size - p)) (p + n + j) ≡ true = ground arith in
            let g : ltb (p + n + j) (v.size + n) ≡ true = ground arith in
            rw (e, g) (ap v.mem (omega arith)));
  }

  inside-Opened : n ≢ 0 → Opened v.mem (move_tail (v.size - p) (v.size + n) v.size v.mem) p n v.size
  inside-Opened z = record {
    below = λ j lt.
        move_tail_lem (v.size - p) (v.size + n) v.size v.mem j (omega arith) (omega arith)
        ∙ (let e : leb (v.size + n - (v.size - p)) j ≡ false = ground arith in
            let g : leb (v.size - (v.size - p)) j ≡ false = ground arith in rw (e, g));
    above = λ j lt.
        move_tail_lem (v.size - p) (v.size + n) v.size v.mem (p + n + j) (omega arith) (omega arith)
        ∙ (let e : leb (v.size + n - (v.size - p)) (p + n + j) ≡ true = ground arith in
            let g : ltb (p + n + j) (v.size + n) ≡ true = ground arith in
            rw (e, g) (ap v.mem (omega arith)));
  }

  -- A gap is opened in the block at hand or in a larger one, with a pointer behind the gap.
  pub insert_blank_space_lem :
      n ≢ 0
      → Room alloc v n
      → (out : Vec A) × (insert_blank_space alloc v p n ≡ (out, some (p + n)))
        × Opened v.mem out.mem p n v.size
        × (out.begun ≡ true)
        × (out.size ≡ v.size + n)
        × (out.size ≤ out.cap)
        × (out.cap < 2 ^ 61)
  unfolding insert_blank_space across
  insert_blank_space_lem z room =
      let d : v.size + n - (v.size - p) ≡ p + n = omega arith in
      elim (Bool-cases (ltb v.cap (v.size + n))) [
        | inl t ↦
            let a : alloc (n + (v.cap + 4) * 2) ≡ true = ground arith in
            (
              record {
                begun = true;
                mem = across;
                size = v.size + n;
                cap = n + (v.cap + 4) * 2;
                freed = give_back v;
              },
              rw (t, cap_lem, a, d),
              across-Opened,
              refl,
              refl,
              omega (arith, h.fits),
              bounded _ a,
            )
        | inr f ↦
            let b : v.begun ≡ true = ground arith in
            (
              record v {
                mem = move_tail (v.size - p) (v.size + n) v.size v.mem;
                size = v.size + n;
              },
              rw (f, b, d),
              inside-Opened z,
              b,
              refl,
              ground arith,
              h.small,
            )
      ]

  -- Without room and without a new block the array is as before, and the pointer is null.
  pub insert_blank_space_refused :
      v.cap < v.size + n
      → alloc (n + (v.cap + 4) * 2) ≡ false
      → insert_blank_space alloc v p n ≡ (v, none)
  unfolding insert_blank_space
  insert_blank_space_refused f a =
      let t : ltb v.cap (v.size + n) ≡ true = ground arith in rw (t, cap_lem, a)
