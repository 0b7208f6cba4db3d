-- ===== src/Vector/Loops.antt =====
-- include/SkBase/Vector.hxx: what each loop over the slots leaves in every slot.
use sketch.Base.{
  ℕ, zero, suc, ◌+◌, ◌-◌, ◌≤◌, ◌<◌, ◌≡◌, refl, sym, ap, ◌∙◌, ◌&&◌, Option, some, none, arith, ltb,
  leb, ◌==◌, if◌then◌else◌, update, update_ne, Bool-cases, inl, inr, Bool, true, false,
}
use sketch.Vector.{
  move_front, move_across, move_tail, fill, destroy_n, assign_down, assign_live, is_dead,
}

module _ {ℓ} {A : Type ℓ} where
  -- No offset lies in an empty range.
  no_range : (a q : ℕ) (x y : Option A) → (if leb a q && ltb q a then x else y) ≡ y
  no_range a q x y = ground arith

  -- A range that grows by the offset at its end, which gets its value.
  range-snoc :
      (k d q : ℕ) (x y z : Option A)
      → k ≤ d
      → (d ≡ q → x ≡ z)
      → (if leb k q && ltb q d then x else (if d == q then z else y))
        ≡ (if leb k q && ltb q (suc d) then x else y)
  range-snoc k d q x y z h e = elim (Bool-cases (d == q)) [
    | inl t ↦
        let a : leb k q ≡ true = ground arith in
        let b : ltb q (suc d) ≡ true = ground arith in
        let c : ltb q d ≡ false = ground arith in rw (a, b, c, t) (sym (e (ground arith)))
    | inr f ↦ let g : ltb q d ≡ ltb q (suc d) = ground arith in rw (f, g)
  ]

  if-same : (b : Bool) (x : Option A) → (if b then x else x) ≡ x
  if-same true x = refl
  if-same false x = refl

  -- The same where a second range below is emptied.
  ranges-snoc :
      (k d l s q : ℕ) (x x' y z : Option A)
      → k ≤ d
      → l ≤ s
      → s < d
      → (k ≤ q → q < d → x ≡ x')
      → (d ≡ q → x' ≡ z)
      → (if leb k q && ltb q d
          then x
          else (if leb l q && ltb q s
              then none
              else (if s == q then none else (if d == q then z else y))))
        ≡ (if leb k q && ltb q (suc d) then x' else (if leb l q && ltb q (suc s) then none else y))
  ranges-snoc k d l s q x x' y z h i lt e f = elim (Bool-cases (leb k q && ltb q d)) [
    | inl t ↦
        let a : leb k q ≡ true = ground arith in
        let b : ltb q (suc d) ≡ true = ground arith in
        let c : ltb q d ≡ true = ground arith in rw (a, b, c) (e (ground arith) (ground arith))
    | inr n ↦ elim (Bool-cases (d == q)) [
      | inl t ↦
          let a : leb k q ≡ true = ground arith in
          let b : ltb q (suc d) ≡ true = ground arith in
          let c : ltb q d ≡ false = ground arith in
          let g : (leb l q && ltb q s) ≡ false = ground arith in
          let u : (s == q) ≡ false = ground arith in rw (a, b, c, g, u, t) (sym (f (ground arith)))
      | inr m ↦
          let g : ltb q d ≡ ltb q (suc d) = ground arith in
          elim (Bool-cases (s == q)) [
            | inl t ↦
                let a : leb l q ≡ true = ground arith in
                let b : ltb q (suc s) ≡ true = ground arith in
                rw (m, sym g, n, t, a, b) (if-same (ltb q s) none)
            | inr f ↦ let b : ltb q s ≡ ltb q (suc s) = ground arith in rw (m, sym g, n, f, b)
          ]
    ]
  ]

  pub move_front_lem :
      (old : ℕ → Option A) (n i : ℕ) (new : ℕ → Option A) (q : ℕ)
      → move_front old n i new q ≡ (if leb i q && ltb q (i + n) then old q else new q)
  unfolding move_front
  move_front_lem old zero i new q = ground arith
  move_front_lem old (suc n) i new q =
      move_front_lem old n (suc i) (update new i (old i)) q ∙ ground arith

  pub move_across_lem :
      (old : ℕ → Option A) (n dest src : ℕ) (new : ℕ → Option A) (q : ℕ)
      → n ≤ src
      → src ≤ dest
      → move_across old n dest src new q
        ≡ (if leb (dest - n) q && ltb q dest then old (q - (dest - src)) else new q)
  unfolding move_across
  move_across_lem old zero dest src new q h k =
      let d : dest - zero ≡ dest = omega arith in
      rw (d, no_range dest q (old (q - (dest - src))) (new q))
  move_across_lem old (suc n) zero src new q h k = absurd (omega arith)
  move_across_lem old (suc n) (suc dest) zero new q h k = absurd (omega arith)
  move_across_lem old (suc n) (suc dest) (suc src) new q h k =
      move_across_lem old n (suc dest - 1) (suc src - 1) _ q (omega arith) (omega arith)
      ∙ (let a : suc dest - 1 ≡ dest = omega arith in
          let a' : suc src - 1 ≡ src = omega arith in
          let d : suc dest - suc src ≡ dest - src = omega arith in
          let c : suc dest - suc n ≡ dest - n = omega arith in
          rw (a, a', d, c)
            (range-snoc (dest - n) dest q (old (q - (dest - src))) (new q) (old src) (omega arith)
              (λ t. ap old (omega arith))))

  pub move_tail_lem :
      (n dest src : ℕ) (mem : ℕ → Option A) (q : ℕ)
      → n ≤ src
      → src < dest
      → move_tail n dest src mem q ≡ (
          if leb (dest - n) q && ltb q dest
          then mem (q - (dest - src))
          else (if leb (src - n) q && ltb q src then none else mem q))
  unfolding move_tail
  move_tail_lem zero dest src mem q h k =
      let d : dest - zero ≡ dest = omega arith in
      let e : src - zero ≡ src = omega arith in
      rw (
        d,
        e,
        no_range dest q (mem (q - (dest - src))) (if leb src q && ltb q src then none else mem q),
        no_range src q none (mem q),
      )
  move_tail_lem (suc n) zero src mem q h k = absurd (omega arith)
  move_tail_lem (suc n) (suc dest) zero mem q h k = absurd (omega arith)
  move_tail_lem (suc n) (suc dest) (suc src) mem q h k =
      move_tail_lem n (suc dest - 1) (suc src - 1) _ q (omega arith) (omega arith)
      ∙ (let a : suc dest - 1 ≡ dest = omega arith in
          let a' : suc src - 1 ≡ src = omega arith in
          let d : suc dest - suc src ≡ dest - src = omega arith in
          let c : suc dest - suc n ≡ dest - n = omega arith in
          let b : suc src - suc n ≡ src - n = omega arith in
          let m = update (update mem dest (mem src)) src none in
          rw (a, a', d, c, b)
            (ranges-snoc (dest - n) dest (src - n) src q (m (q - (dest - src)))
              (mem (q - (dest - src))) (mem q) (mem src) (omega arith) (omega arith) (omega arith)
              (λ lo hi.
                update_ne (update mem dest (mem src)) src (q - (dest - src)) none (omega arith)
                ∙ update_ne mem dest (q - (dest - src)) (mem src) (omega arith))
              (λ t. ap mem (omega arith))))

  -- Where source and destination are the same slots, every one of them is emptied.
  pub move_tail_same :
      (n s : ℕ) (mem : ℕ → Option A) (q : ℕ)
      → n ≤ s
      → move_tail n s s mem q ≡ (if leb (s - n) q && ltb q s then none else mem q)
  unfolding move_tail
  move_tail_same zero s mem q h =
      let d : s - zero ≡ s = omega arith in rw (d, no_range s q none (mem q))
  move_tail_same (suc n) zero mem q h = absurd (omega arith)
  move_tail_same (suc n) (suc s) mem q h =
      move_tail_same n (suc s - 1) _ q (omega arith)
      ∙ (let a : suc s - 1 ≡ s = omega arith in
          let c : suc s - suc n ≡ s - n = omega arith in
          let w : (if s == q then mem s else mem q) ≡ mem q = elim (Bool-cases (s == q)) [
            | inl t ↦ rw t (ap mem (ground arith))
            | inr f ↦ rw f
          ] in
          rw (a, c, w) (range-snoc (s - n) s q none (mem q) none (omega arith) (λ _. refl)))

  pub fill_lem :
      (first n : ℕ) (x : A) (mem : ℕ → Option A) (q : ℕ)
      → fill first n x mem q ≡ (if leb first q && ltb q (first + n) then some x else mem q)
  unfolding fill
  fill_lem first zero x mem q = ground arith
  fill_lem first (suc n) x mem q = fill_lem (suc first) n x _ q ∙ ground arith

  pub destroy_n_lem :
      (first n : ℕ) (mem : ℕ → Option A) (q : ℕ)
      → destroy_n first n mem q ≡ (if leb first q && ltb q (first + n) then none else mem q)
  unfolding destroy_n
  destroy_n_lem first zero mem q = ground arith
  destroy_n_lem first (suc n) mem q = destroy_n_lem first n _ q ∙ ground arith

  -- Where objects live in the slots that are assigned to, there is no fault.
  pub assign_live_lem :
      (n src dest : ℕ) (mem : ℕ → Option A)
      → ((j : ℕ) → j < n → is_dead (mem (dest + j)) ≡ false)
      → assign_live n src dest mem ≡ some (assign_down n src dest mem)
  unfolding assign_live assign_down
  assign_live_lem zero src dest mem h = refl
  assign_live_lem (suc n) src dest mem h =
      let at : dest + 0 ≡ dest = omega arith in
      let now : is_dead (mem dest) ≡ false =
        ap (λ k. is_dead (mem k)) (sym at) ∙ h 0 (omega arith) in
      let later = λ (j : ℕ) (b : j < n).
        ap is_dead (update_ne mem dest (suc dest + j) (mem src) (omega arith))
        ∙ ap (λ k. is_dead (mem k)) {x = suc dest + j} {y = dest + suc j} (omega arith)
        ∙ h (suc j) (omega arith) in
      rw now (assign_live_lem n (suc src) (suc dest) _ later)

  pub assign_down_lem :
      (n src dest : ℕ) (mem : ℕ → Option A) (q : ℕ)
      → dest < src
      → assign_down n src dest mem q
        ≡ (if leb dest q && ltb q (dest + n) then mem (q + (src - dest)) else mem q)
  unfolding assign_down
  assign_down_lem zero src dest mem q h = ground arith
  assign_down_lem (suc n) src dest mem q h =
      assign_down_lem n (suc src) (suc dest) _ q (omega arith)
      ∙ (let d : suc src - suc dest ≡ src - dest = omega arith in
          rw d (elim (Bool-cases (dest == q)) [
            | inl t ↦ let e : q + (src - dest) ≡ src = ground arith in rw e (ground arith)
            | inr f ↦ ground arith
          ]))
