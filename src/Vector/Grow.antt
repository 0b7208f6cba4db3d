-- ===== src/Vector/Grow.antt =====
-- include/SkBase/Vector.hxx: `push_back`, `pop_back` and `reserve`.
use sketch.Base.{
  ℕ, ◌+◌, ◌-◌, ◌*◌, ◌^◌, ◌≤◌, ◌<◌, ◌≡◌, ◌≢◌, refl, sym, ap, ap₂, ◌∙◌, [], ◌∷◌, ◌++◌, some, none,
  Bool, true, false, arith, ◌==◌, ltb, update, update_self, update_ne, Bool-cases, ◌⊎◌, inl, inr,
  ◌↔◌, drop_last, drop_last-append,
}
use mathlib.Core.Bool.{true≢false}
use sketch.Vector.{
  Vec, realloc, put_back, push_back, pop_back, reserve, capacity_factor, give_back, move_front,
}
use sketch.Vector.Span.{IsValid, contents, span, span_same, span-snoc}
use sketch.Vector.Loops.{move_front_lem}

pub capacity_factor_lem : (n : ℕ) → n < 2 ^ 61 → capacity_factor n ≡ (n + 4) * 2
capacity_factor_lem n h = omega arith

module _ {ℓ} {A : Type ℓ} where
  -- `pop_back` of an array that is not empty removes the last element, and keeps it well formed.
  pub contents-pop_back :
      (v : Vec A)
      → IsValid v
      → v.size ≢ 0
      → IsValid (pop_back v) × (contents (pop_back v) ≡ drop_last (contents v))
  unfolding pop_back
  contents-pop_back v h z = (
    record {
      fits = omega arith;
      small = h.small;
      stored = h.stored;
      live =
          λ i b. let e : (v.size - 1 == i) ≡ false = ground arith in rw e (h.live i (omega arith));
    },
    span_same _ v.mem (v.size - 1) (λ j b. update_ne v.mem (v.size - 1) j none (omega arith))
        ∙ sym (drop_last-append (span v.mem 0 (v.size - 1)) (v.mem (v.size - 1)))
        ∙ ap drop_last
            (sym (span-snoc v.mem (v.size - 1)) ∙ ap (λ n. span v.mem 0 n) (omega arith)),
  )

module _ {ℓ} {A : Type ℓ} (alloc : ℕ → Bool) (bounded : (n : ℕ) → alloc n ≡ true → n < 2 ^ 61) where
  -- The new block holds what the old one did.
  moved_at : (v : Vec A) (j : ℕ) → j < v.size → move_front v.mem v.size 0 (λ _. none) j ≡ v.mem j
  moved_at v j h = move_front_lem v.mem v.size 0 (λ _. none) j ∙ ground arith

  -- A block of `n` slots with the elements of the array.
  abbrev grown : Vec A → ℕ → Vec A
  grown v n = record {
    begun = true;
    mem = move_front v.mem v.size 0 (λ _. none);
    size = v.size;
    cap = n;
    freed = give_back v;
  }

  contents-grown : (v : Vec A) (n : ℕ) → contents (grown v n) ≡ contents v
  contents-grown v n = span_same _ v.mem v.size (moved_at v)

  grown-IsValid :
      (v : Vec A) (n : ℕ) → IsValid v → alloc n ≡ true → v.size ≤ n → IsValid (grown v n)
  grown-IsValid v n h t le = record {
    fits = le;
    small = bounded n t;
    stored = inl refl;
    live = λ i lt. ((h.live i lt).0, moved_at v i lt ∙ (h.live i lt).1);
  }

  -- One more element at the end.
  abbrev longer : Vec A → A → Vec A
  longer v x = record v { mem = update v.mem v.size (some x); size = v.size + 1 }

  longer-IsValid : (v : Vec A) (x : A) → IsValid v → v.size < v.cap → IsValid (longer v x)
  longer-IsValid v x h lt = record {
    fits = omega arith;
    small = h.small;
    stored = h.stored;
    live = λ i b. elim (Bool-cases (v.size == i)) [
      | inl t ↦ (x, rw t)
      | inr f ↦ rw f (h.live i (ground arith))
    ];
  }

  contents-longer : (v : Vec A) (x : A) → contents (longer v x) ≡ contents v ++ some x ∷ []
  contents-longer v x =
      span-snoc (update v.mem v.size (some x)) v.size
      ∙ ap₂ (λ l y. l ++ y ∷ [])
          (span_same _ v.mem v.size (λ j b. update_ne v.mem v.size j (some x) (omega arith)))
          (update_self v.mem v.size (some x))

  -- Where a well formed array has room or the allocator, which refuses 2^61 elements and more,
  -- gives the larger block, `push_back` succeeds and appends the element, and the array is well
  -- formed after it.
  pub contents-push_back :
      (v : Vec A) (x : A)
      → IsValid v
      → (v.size < v.cap) ⊎ (alloc (capacity_factor v.cap) ≡ true)
      → (out : Vec A) × (push_back alloc v x ≡ (out, true))
        × IsValid out
        × (contents out ≡ contents v ++ some x ∷ [])
  unfolding push_back put_back realloc
  contents-push_back v x h room =
      let c = capacity_factor_lem v.cap h.small in
      elim (Bool-cases (v.size == v.cap)) [
        | inl t ↦
            let a : alloc (capacity_factor v.cap) ≡ true = ground arith in
            let g = grown-IsValid v (capacity_factor v.cap) h a (omega arith) in
            (
              longer (grown v (capacity_factor v.cap)) x,
              rw (t, a),
              longer-IsValid (grown v (capacity_factor v.cap)) x g (omega arith),
              contents-longer (grown v (capacity_factor v.cap)) x
                  ∙ ap (λ l. l ++ some x ∷ []) (contents-grown v (capacity_factor v.cap)),
            )
        | inr f ↦ (longer v x, rw f, longer-IsValid v x h (ground arith), contents-longer v x)
      ]

  -- `reserve` never changes the elements of a well formed array, and leaves it well formed. It
  -- succeeds exactly where the capacity asked for is within `max_size` and the array has that
  -- capacity afterwards.
  pub contents-reserve :
      (max_size : ℕ) (v : Vec A) (n : ℕ)
      → IsValid v
      → IsValid (reserve alloc max_size v n).0
        × (contents (reserve alloc max_size v n).0 ≡ contents v)
        × (((reserve alloc max_size v n).1 ≡ true)
            ↔ (n ≤ max_size) × ((n ≤ (reserve alloc max_size v n).0.cap)))
  unfolding reserve realloc
  contents-reserve max_size v n h = elim (Bool-cases (ltb max_size n)) [
    | inl t ↦ rw t (h, refl, (λ e. absurd (true≢false (sym e)), λ k. ground arith))
    | inr f ↦ elim (Bool-cases (ltb v.cap n)) [
      | inl t ↦ elim (Bool-cases (alloc n)) [
        | inl a ↦
            rw (f, t, a)
              (
                grown-IsValid v n h a (ground arith),
                contents-grown v n,
                (λ e. (ground arith, omega arith), λ k. refl),
              )
        | inr a ↦ rw (f, t, a) (h, refl, (λ e. absurd (true≢false (sym e)), λ k. ground arith))
      ]
      | inr m ↦ rw (f, m) (h, refl, (λ e. (ground arith, ground arith), λ k. refl))
    ]
  ]
