-- ===== src/RefCount/Pointers.antt =====
-- include/SkBase/IRefCounted.hxx: counters against the pointers that there are.
use sketch.Base.{
  ℕ, ◌+◌, ◌-◌, ◌≡◌, ◌≢◌, refl, sym, ap, ◌∙◌, List, [], ◌∷◌, ◌++◌, true, false, not, arith, ◌==◌,
  ==_self, if◌then◌else◌, Bool-cases, inl, inr, ◌⊎◌,
}
use sketch.Base.Int.{pos, ◌+ℤ◌, ◌-ℤ◌}
use sketch.RefCount.{
  Objects, increment, decrement, add_ref, release_ref, construct, destroy, assign,
}

-- How many of the pointers are at `p`.
abbrev pub references : ℕ → List ℕ → ℕ
references p [] = 0
references p (q ∷ qs) = (if q == p then 1 else 0) + references p qs

references-append :
    (p : ℕ) (xs : List ℕ) (q : ℕ) (ys : List ℕ)
    → references p (xs ++ q ∷ ys) ≡ references p xs + references p ys + (if q == p then 1 else 0)
references-append p [] q ys = omega arith
references-append p (x ∷ xs) q ys = omega (arith, references-append p xs q ys)

references-both :
    (p : ℕ) (xs ys : List ℕ) → references p (xs ++ ys) ≡ references p xs + references p ys
references-both p [] ys = omega arith
references-both p (x ∷ xs) ys = omega (arith, references-both p xs ys)

-- The counter of every object is the number of pointers at it, and an object with a pointer at it
-- is not deleted.
pub record IsCounted (o : Objects) (n : ℕ → ℕ) : Type 0 where
  pub counter : (p : ℕ) → p ≢ 0 → o.counter p ≡ pos (n p)
  pub live : (p : ℕ) → p ≢ 0 → n p ≢ 0 → o.live p ≡ true

pub increment_lem : (n : ℕ) → increment (pos n) ≡ (pos (n + 1), pos (n + 1))
unfolding increment ◌+ℤ◌
increment_lem n = ground arith

pub decrement_lem : (n : ℕ) → n ≢ 0 → decrement (pos n) ≡ (pos (n - 1), pos (n - 1))
unfolding decrement ◌-ℤ◌
decrement_lem n z = ground arith

-- One reference more, and one less.
abbrev pub more : ℕ → (ℕ → ℕ) → ℕ → ℕ
more p n q = n q + (if p == q then 1 else 0)

abbrev pub fewer : ℕ → (ℕ → ℕ) → ℕ → ℕ
fewer p n q = n q - (if p == q then 1 else 0)

pub add_ref-IsCounted :
    (o : Objects) (n : ℕ → ℕ) (p : ℕ)
    → IsCounted o n
    → p ≢ 0
    → o.live p ≡ true
    → IsCounted (add_ref o p) (more p n)
unfolding add_ref
add_ref-IsCounted o n p h z l =
    let c = h.counter p z in
    let i = increment_lem (n p) in
    record {
      counter = λ q nz. elim (Bool-cases (p == q)) [
        | inl t ↦ let e : p ≡ q = ground arith in rw (t, ← e, c, i)
        | inr f ↦ let a : n q + 0 ≡ n q = omega arith in rw (f, a) (h.counter q nz)
      ];
      live = λ q nz k. elim (Bool-cases (p == q)) [
        | inl t ↦ let e : p ≡ q = ground arith in rw (← e) l
        | inr f ↦ h.live q nz (ground arith)
      ];
    }

pub release_ref-IsCounted :
    (o : Objects) (n : ℕ → ℕ) (p : ℕ)
    → IsCounted o n
    → p ≢ 0
    → n p ≢ 0
    → IsCounted (release_ref o p) (fewer p n) × ((release_ref o p).live p ≡ not (n p == 1))
unfolding release_ref
release_ref-IsCounted o n p h z k =
    let c = h.counter p z in
    let d = decrement_lem (n p) k in
    let w : (n p - 1 + 0 == 0 + 0) ≡ (n p == 1) = ground arith in
    let u = ==_self p in
    (
      record {
        counter = λ q nz. elim (Bool-cases (p == q)) [
          | inl t ↦ let e : p ≡ q = ground arith in rw (t, ← e, c, d)
          | inr f ↦ let a : n q - 0 ≡ n q = omega arith in rw (f, a) (h.counter q nz)
        ];
        live = λ q nz m. elim (Bool-cases (n p == 1)) [
          | inl one ↦
              rw (c, d, w, one)
                (elim (Bool-cases (p == q)) [
                  | inl t ↦ let e : p ≡ q = ground arith in absurd (m (rw (t, ← e) (ground arith)))
                  | inr f ↦ rw f (h.live q nz (ground arith))
                ])
          | inr many ↦ rw (c, d, w, many) (h.live q nz (ground arith))
        ];
      },
      rw (c, d, w)
          (elim (Bool-cases (n p == 1)) [
            | inl one ↦ rw (one, u)
            | inr many ↦ rw many (h.live p z k)
          ]),
    )

-- Counts that agree on every object serve alike.
pub recount :
    (o : Objects) (m n : ℕ → ℕ) → ((q : ℕ) → q ≢ 0 → m q ≡ n q) → IsCounted o m → IsCounted o n
recount o m n e h = record {
  counter = λ q z. h.counter q z ∙ ap pos (e q z);
  live = λ q z k. h.live q z (λ m0. k (sym (e q z) ∙ m0));
}

module _ (o : Objects) (xs : List ℕ) (v : ℕ) (ys : List ℕ) where
  abbrev before : ℕ → ℕ
  before q = references q (xs ++ v ∷ ys)

  -- The temporary of an assignment.
  construct-IsCounted :
      (p : ℕ)
      → IsCounted o before
      → (p ≡ 0) ⊎ (o.live p ≡ true)
      → IsCounted (construct o p).0 (more p before)
  unfolding construct
  construct-IsCounted p h l = elim (Bool-cases (p == 0)) [
    | inl t ↦ rw t (
        recount o before (more p before)
          (λ q z. let e : (p == q) ≡ false = ground arith in rw e (omega arith)) h)
    | inr f ↦ rw f (add_ref-IsCounted o before p h (ground arith) (ground arith))
  ]

  -- Where every counter is the number of pointers at its object, the assignment of null or of an
  -- object that is not deleted to one of the pointers makes it point there, and every counter is
  -- again the number of pointers, with no object deleted that a pointer is at.
  pub assign-IsCounted :
      (p : ℕ)
      → IsCounted o (λ q. references q (xs ++ v ∷ ys))
      → (p ≡ 0) ⊎ (o.live p ≡ true)
      → ((assign o v p).1 ≡ p) × IsCounted (assign o v p).0 (λ q. references q (xs ++ p ∷ ys))
  unfolding assign destroy construct
  assign-IsCounted p h l = elim (Bool-cases (v == p)) [
    | inl t ↦ let e : v ≡ p = ground arith in rw (t, ← e) (refl, h)
    | inr f ↦
        let o' = (construct o p).0 in
        let c = construct-IsCounted p h l in
        let after = λ (q : ℕ). references q (xs ++ p ∷ ys) in
        let a = λ (q : ℕ). references-append q xs v ys in
        let b = λ (q : ℕ). references-append q xs p ys in
        rw f (elim (Bool-cases (v == 0)) [
          | inl t ↦ rw t (
            refl,
            recount o' (more p before) after
                (λ q z.
                  let e : (v == q) ≡ false = ground arith in
                  let a' = a q in let b' = b q in rw (a', b', e) (omega arith))
                c,
          )
          | inr g ↦
              let n : more p before v ≢ 0 = ground (arith, a v, ==_self v) in
              let r = release_ref-IsCounted o' (more p before) v c (ground arith) n in
              rw g (
                refl,
                recount (release_ref o' v) (fewer v (more p before)) after
                    (λ q z. let a' = a q in let b' = b q in rw (a', b') (omega arith)) r.0,
              )
        ])
  ]

  -- The end of a pointer takes its reference back: every counter is the number of the other
  -- pointers, and the object is deleted exactly if none of those is at it.
  pub destroy-IsCounted :
      IsCounted o (λ q. references q (xs ++ v ∷ ys))
      → v ≢ 0
      → IsCounted (destroy o v) (λ q. references q (xs ++ ys))
        × ((destroy o v).live v ≡ not (references v (xs ++ ys) == 0))
  unfolding destroy
  destroy-IsCounted h z =
      let f : (v == 0) ≡ false = ground arith in
      let a = λ (q : ℕ). references-append q xs v ys in
      let b = λ (q : ℕ). references-both q xs ys in
      let n : before v ≢ 0 = ground (arith, a v, ==_self v) in
      let r = release_ref-IsCounted o before v h z n in
      let w : (before v == 1) ≡ (references v (xs ++ ys) == 0) =
        ground (arith, a v, b v, ==_self v) in
      rw f (
        recount (release_ref o v) (fewer v before) (λ q. references q (xs ++ ys))
            (λ q nz. let a' = a q in let b' = b q in rw (a', b') (omega arith)) r.0,
        rw w at r.1,
      )
