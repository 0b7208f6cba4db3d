-- ===== src/Vector/Erase.antt =====
-- include/SkBase/Vector.hxx: the two forms of `erase`, and `clear`.
use sketch.Base.{
  ℕ, suc, ◌+◌, ◌-◌, ◌≤◌, ◌<◌, ◌≡◌, refl, sym, ap, ap₂, ◌∙◌, [], ◌∷◌, ◌++◌, Option, none, some, Bool,
  true, false, arith, ltb, leb, ◌==◌, if◌then◌else◌, Bool-cases, inl, inr, ◌⊎◌, take, drop,
  take-append-drop, not, ◌&&◌, update, update_ne,
}
use mathlib.Core.Option
use sketch.Vector.{Vec, erase, erase_range, destroy_n, assign_down, assign_live, is_dead}
use sketch.Vector.Span.{
  IsValid, contents, span, span_ext, span_same, span-snoc, span-append, take-span, drop-span,
}
use sketch.Vector.Loops.{assign_down_lem, assign_live_lem, destroy_n_lem}

module _ {ℓ} {B : Type ℓ} where
  -- A store in which the slots from `q` on, of the first `k`, stand at `p`.
  pub span-closed :
      (f m : ℕ → B) (p q k : ℕ)
      → p ≤ q
      → q ≤ k
      → ((j : ℕ) → j < p → m j ≡ f j)
      → ((j : ℕ) → j < k - q → m (p + j) ≡ f (q + j))
      → span m 0 (p + (k - q)) ≡ take p (span f 0 k) ++ drop q (span f 0 k)
  span-closed f m p q k h i below above =
      let a : 0 + p ≡ p = omega arith in
      let b : 0 + q ≡ q = omega arith in
      let t = take-span f 0 p k (omega arith) in
      let d = drop-span f 0 q k i in
      rw (t, d, b)
        (rw a at (span-append m 0 p (k - q))
          ∙ ap₂ ◌++◌ (span_same m f p below) (span_ext m f p q (k - q) above))

module _ {ℓ} {A : Type ℓ} (v : Vec A) (h : IsValid v) where
  -- A closed gap leaves a well formed array.
  closed-IsValid :
      (m : ℕ → Option A) (p q n : ℕ)
      → p ≤ q
      → q ≤ v.size
      → n ≡ p + (v.size - q)
      → ((j : ℕ) → j < p → m j ≡ v.mem j)
      → ((j : ℕ) → j < v.size - q → m (p + j) ≡ v.mem (q + j))
      → IsValid (record v { mem = m; size = n })
  closed-IsValid m p q n le lt e below above = record {
    fits = omega (arith, h.fits);
    small = h.small;
    stored = h.stored;
    live = λ i b. elim (Bool-cases (ltb i p)) [
      | inl t ↦ let y = h.live i (ground arith) in (y.0, below i (ground arith) ∙ y.1)
      | inr f ↦
          let y = h.live (q + (i - p)) (ground arith) in
          let a : p + (i - p) ≡ i = ground arith in
          (y.0, rw a at (above (i - p) (ground arith)) ∙ y.1)
    ];
  }

  -- The loop of `erase` closes the gap between two positions, whatever stood in it.
  moved_below :
      (f : ℕ → Option A) (p q : ℕ)
      → p < q
      → ((j : ℕ) → j < p → f j ≡ v.mem j)
      → (j : ℕ) → j < p
      → assign_down (v.size - q) q p f j ≡ v.mem j
  moved_below f p q lt e j b =
      assign_down_lem (v.size - q) q p f j lt
      ∙ (let g : leb p j ≡ false = ground arith in rw g (e j b))

  moved_above :
      (f : ℕ → Option A) (p q : ℕ)
      → p < q
      → ((j : ℕ) → f (q + j) ≡ v.mem (q + j))
      → (j : ℕ) → j < v.size - q
      → assign_down (v.size - q) q p f (p + j) ≡ v.mem (q + j)
  moved_above f p q lt e j b =
      assign_down_lem (v.size - q) q p f (p + j) lt
      ∙ (let g : leb p (p + j) ≡ true = ground arith in
          let l : ltb (p + j) (p + (v.size - q)) ≡ true = ground arith in
          let s : p + j + (q - p) ≡ q + j = omega arith in rw (g, l, s) (e j))

  -- What is destroyed before the move lies in the gap.
  gap : Bool → ℕ → ℕ → ℕ → Option A
  gap no_dtor p q = if not no_dtor then destroy_n p (q - p) v.mem else v.mem

  gap_out : (no_dtor : Bool) (p q j : ℕ) → (j < p) ⊎ (q ≤ j) → gap no_dtor p q j ≡ v.mem j
  unfolding gap
  gap_out true p q j b = refl
  gap_out false p q j b =
      destroy_n_lem p (q - p) v.mem j
      ∙ (let g : (leb p j && ltb j (p + (q - p))) ≡ false = ground arith in rw g)

  -- The assignments go to slots with objects, except where these were destroyed before.
  live_before :
      (no_dtor : Bool) (p q : ℕ)
      → (not no_dtor && (ltb p q && ltb q v.size)) ≡ false
      → p < q
      → q ≤ v.size
      → (j : ℕ) → j < v.size - q
      → is_dead (gap no_dtor p q (p + j)) ≡ false
  unfolding gap
  live_before true p q e lt le j b = let y = h.live (p + j) (omega arith) in ap is_dead y.1
  live_before false p q e lt le j b = absurd (ground arith)

  dead_before : (p q n : ℕ) → p < q → assign_live (suc n) q p (gap false p q) ≡ none
  unfolding gap assign_live
  dead_before p q n lt =
      let d : destroy_n p (q - p) v.mem p ≡ none =
        destroy_n_lem p (q - p) v.mem p
        ∙ (let g : (leb p p && ltb p (p + (q - p))) ≡ true = ground arith in rw g refl) in
      let e : is_dead (destroy_n p (q - p) v.mem p) ≡ true = ap is_dead d in rw e refl

  closed_gap : Bool → ℕ → ℕ → Vec A
  closed_gap no_dtor p q = record v {
    mem = assign_down (v.size - q) q p (gap no_dtor p q);
    size = p + (v.size - q);
  }

  erase_range_cases :
      (no_dtor : Bool) (p q : ℕ)
      → p < q
      → q ≤ v.size
      → erase_range no_dtor v p q ≡ (
          if not no_dtor && (ltb p q && ltb q v.size)
          then none
          else some (closed_gap no_dtor p q, p))
  unfolding erase_range gap closed_gap
  erase_range_cases no_dtor p q l le =
      let f : (p == q) ≡ false = ground arith in
      let moves : Option (ℕ → Option A) → Option (Vec A × ℕ) =
        Option.map (λ m. (record v { mem = m; size = p + (v.size - q) }, p)) in
      elim (Bool-cases (not no_dtor && (ltb p q && ltb q v.size))) [
        | inl bad ↦
            let d : no_dtor ≡ false = ground arith in
            let n : v.size - q ≡ suc (v.size - q - 1) = ground arith in
            rw (f, bad)
              (ap moves (
                ap₂ (λ k n. assign_live n q p (gap k p q)) d n
                ∙ dead_before p q (v.size - q - 1) l))
        | inr good ↦
            rw (f, good)
              (ap moves (assign_live_lem (v.size - q) q p _ (live_before no_dtor p q good l le)))
      ]

  -- `erase(first, last)` in a well formed array, for two positions in order: where the element type
  -- has a destructor, the range is not empty and there are elements behind it, the first of these is
  -- assigned to a destroyed object (`none`). Otherwise exactly the elements of the range go, the
  -- first position is returned, and the array is well formed.
  pub contents-erase_range :
      (no_dtor : Bool) (p q : ℕ)
      → p ≤ q
      → q ≤ v.size
      → (out : Vec A) × (erase_range no_dtor v p q
          ≡ (if not no_dtor && (ltb p q && ltb q v.size) then none else some (out, p)))
        × IsValid out
        × (contents out ≡ take p (contents v) ++ drop q (contents v))
  unfolding erase_range gap closed_gap
  contents-erase_range no_dtor p q le lt = elim (Bool-cases (p == q)) [
    | inl t ↦
        let e : p ≡ q = ground arith in
        let f : ltb p q ≡ false = ground arith in
        (
          v,
          (let g : (not no_dtor && (ltb p q && ltb q v.size)) ≡ false = ground arith in
              rw (t, g) refl),
          h,
          sym (rw e (take-append-drop q (contents v))),
        )
    | inr f ↦
        let l : p < q = ground arith in
        let below = moved_below (gap no_dtor p q) p q l (λ j b. gap_out no_dtor p q j (inl b)) in
        let above =
          moved_above (gap no_dtor p q) p q l
            (λ j. gap_out no_dtor p q (q + j) (inr (omega arith))) in
        (
          closed_gap no_dtor p q,
          erase_range_cases no_dtor p q l lt,
          closed-IsValid _ p q _ le lt refl below above,
          span-closed v.mem _ p q v.size le lt below above,
        )
  ]

  -- The storage after `erase` of one position.
  shifted : ℕ → ℕ → Option A
  shifted p = if p + 1 == v.size then v.mem else assign_down (v.size - (p + 1)) (p + 1) p v.mem

  shifted_below : (p j : ℕ) → j < p → shifted p j ≡ v.mem j
  unfolding shifted
  shifted_below p j b = elim (Bool-cases (p + 1 == v.size)) [
    | inl t ↦ rw t
    | inr f ↦ rw f (moved_below v.mem p (p + 1) (omega arith) (λ _ _. refl) j b)
  ]

  shifted_above : (p j : ℕ) → j < v.size - suc p → shifted p (p + j) ≡ v.mem (suc p + j)
  unfolding shifted
  shifted_above p j b = elim (Bool-cases (p + 1 == v.size)) [
    | inl t ↦ absurd (ground arith)
    | inr f ↦
        let s : p + 1 ≡ suc p = omega arith in
        rw f (rw s (moved_above v.mem p (suc p) (omega arith) (λ _. refl) j b))
  ]

  shifted_last : (p : ℕ) → p < v.size → shifted p (p + (v.size - suc p)) ≡ v.mem (v.size - 1)
  unfolding shifted
  shifted_last p lt = elim (Bool-cases (p + 1 == v.size)) [
    | inl t ↦ rw t (ap v.mem (ground arith))
    | inr f ↦ rw f (
        assign_down_lem (v.size - (p + 1)) (p + 1) p v.mem (p + (v.size - suc p)) (omega arith)
        ∙ (let g : ltb (p + (v.size - suc p)) (p + (v.size - (p + 1))) ≡ false = ground arith in
            let l : leb p (p + (v.size - suc p)) ≡ true = ground arith in
            rw (g, l) (ap v.mem (omega arith))))
  ]

  -- In a well formed array `erase` of one position removes that element where the element type has
  -- a destructor: it returns the position, and the array stays well formed.
  pub contents-erase_one :
      (p : ℕ)
      → p < v.size
      → ((erase false v p).1 ≡ p)
        × IsValid (erase false v p).0
        × (contents (erase false v p).0 ≡ take p (contents v) ++ drop (suc p) (contents v))
  unfolding erase shifted
  contents-erase_one p lt =
      let n : v.size - 1 ≡ p + (v.size - suc p) = omega arith in
      let below = λ (j : ℕ) (b : j < p).
        update_ne (shifted p) (v.size - 1) j none (omega arith) ∙ shifted_below p j b in
      let above = λ (j : ℕ) (b : j < v.size - suc p).
        update_ne (shifted p) (v.size - 1) (p + j) none (omega arith) ∙ shifted_above p j b in
      (
        refl,
        closed-IsValid _ p (suc p) (v.size - 1) (omega arith) (omega arith) n below above,
        ap (λ k. span (update (shifted p) (v.size - 1) none) 0 k) n
            ∙ span-closed v.mem _ p (suc p) v.size (omega arith) (omega arith) below above,
      )

  -- In a well formed array `erase` of one position keeps the size where the element type has no
  -- destructor: the elements behind the position stand one place down, and the last one stands
  -- there twice.
  pub contents-erase_scalar :
      (p : ℕ)
      → p < v.size
      → contents (erase true v p).0
        ≡ (take p (contents v) ++ drop (suc p) (contents v)) ++ v.mem (v.size - 1) ∷ []
  unfolding erase shifted
  contents-erase_scalar p lt =
      ap (λ k. span (shifted p) 0 k) (let n : v.size ≡ p + (v.size - suc p) + 1 = omega arith in n)
      ∙ span-snoc (shifted p) (p + (v.size - suc p))
      ∙ ap₂ (λ l y. l ++ y ∷ [])
          (span-closed v.mem _ p (suc p) v.size (omega arith) (omega arith) (shifted_below p)
            (shifted_above p))
          (shifted_last p lt)
