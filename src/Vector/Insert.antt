-- ===== src/Vector/Insert.antt =====
-- include/SkBase/Vector.hxx: `insert` of copies of an element.
use sketch.Base.{
  ℕ, ◌+◌, ◌-◌, ◌*◌, ◌^◌, ◌≤◌, ◌<◌, ◌≡◌, ◌≢◌, refl, sym, ap, ap₂, ◌∙◌, ◌++◌, Option, some, none,
  Bool, true, false, arith, ltb, leb, Bool-cases, inl, inr, take, drop, replicate,
}
use sketch.Vector.{
  Vec, insert, insert_impl, fill_blank, or_end, fill, pointer, insert_blank_space, move_tail,
}
use sketch.Vector.Span.{IsValid, contents, span, span_same, span-append, span-replicate, take-span}
use sketch.Vector.Loops.{fill_lem, move_tail_same}
use sketch.Vector.Blank.{
  Opened, Room, span-Opened, insert_blank_space_lem, insert_blank_space_refused,
}

module _ {ℓ} {A : Type ℓ} (alloc : ℕ → Bool) (bounded : (n : ℕ) → alloc n ≡ true → n < 2 ^ 61)
    (v : Vec A) (h : IsValid v) (p n : ℕ) (le : p ≤ v.size) (big : n < 2 ^ 62) (x : A) where
  -- A gap filled with `x`.
  filled-Opened :
      (m : ℕ → Option A) → Opened v.mem m p n v.size → Opened v.mem (fill p n x m) p n v.size
  filled-Opened m o = record {
    below = λ j lt.
        fill_lem p n x m j ∙ (let e : leb p j ≡ false = ground arith in rw e (o.below j lt));
    above = λ j lt.
        fill_lem p n x m (p + n + j)
        ∙ (let e : ltb (p + n + j) (p + n) ≡ false = ground arith in
            let g : leb p (p + n + j) ≡ true = ground arith in rw (e, g) (o.above j lt));
  }

  filled_at : (m : ℕ → Option A) (j : ℕ) → j < n → fill p n x m (p + j) ≡ some x
  filled_at m j lt = fill_lem p n x m (p + j) ∙ ground arith

  -- The array after an insertion.
  inserted :
      (m : ℕ → Option A) (out : Vec A)
      → Opened v.mem m p n v.size
      → out.mem ≡ fill p n x m
      → out.size ≡ v.size + n
      → contents out ≡ take p (contents v) ++ (replicate n (some x) ++ drop p (contents v))
  inserted m out o e s =
      rw (e, s)
        (span-Opened v.mem (fill p n x m) p n v.size le (filled-Opened m o)
          ∙ ap (λ l. take p (contents v) ++ (l ++ drop p (contents v)))
              (span-replicate (fill p n x m) p n (some x) (filled_at m)))

  inserted_live :
      (m : ℕ → Option A)
      → Opened v.mem m p n v.size
      → (i : ℕ) → i < v.size + n
      → (y : A) × (fill p n x m i ≡ some y)
  inserted_live m o i lt = elim (Bool-cases (ltb i p)) [
    | inl t ↦
        let y = h.live i (ground arith) in (y.0, (filled-Opened m o).below i (ground arith) ∙ y.1)
    | inr f ↦ elim (Bool-cases (ltb i (p + n))) [
      | inl t ↦
          let e : p + (i - p) ≡ i = ground arith in
          (x, rw e at (filled_at m (i - p) (ground arith)))
      | inr g ↦
          let y = h.live (i - n) (ground arith) in
          let e : p + n + (i - (p + n)) ≡ i = ground arith in
          let d : p + (i - (p + n)) ≡ i - n = ground arith in
          (y.0, rw (e, d) at ((filled-Opened m o).above (i - (p + n)) (ground arith)) ∙ y.1)
    ]
  ]

  -- `insert` of `n` copies of an element into a well formed array, `n` not zero and below 2^62, at
  -- a position of the array or at its end, where there is room or the allocator, which refuses
  -- 2^61 elements and more, gives the larger block: it returns the position, the copies stand there
  -- between the elements before and after, and the array is well formed.
  pub contents-insert_copies :
      n ≢ 0
      → Room alloc v n
      → (out : Vec A) × (insert alloc v p n x ≡ (out, some p))
        × IsValid out
        × (contents out ≡ take p (contents v) ++ (replicate n (some x) ++ drop p (contents v)))
  unfolding insert insert_impl fill_blank or_end
  contents-insert_copies z room =
      let b = insert_blank_space_lem alloc bounded v h p n le big z room in
      let d : p + n - n ≡ p = omega arith in
      let out = record b.0 { mem = fill p n x b.0.mem } in
      (
        out,
        rw (b.1, d),
        record {
          fits = b.5;
          small = b.6;
          stored = inl b.3;
          live = λ i lt. inserted_live b.0.mem b.2 i (omega (arith, b.4));
        },
        inserted b.0.mem out b.2 refl b.4,
      )

  -- Otherwise nothing changes, and `insert` returns `end()`.
  pub insert_refused :
      v.cap < v.size + n
      → alloc (n + (v.cap + 4) * 2) ≡ false
      → insert alloc v p n x ≡ (v, pointer v v.size)
  unfolding insert insert_impl fill_blank or_end
  insert_refused f a = let e = insert_blank_space_refused alloc bounded v h p n le big f a in rw e

module _ {ℓ} {A : Type ℓ} (alloc : ℕ → Bool) (v : Vec A) (h : IsValid v) (x : A) where
  -- `insert` of no copies, at a position of a well formed array with storage, destroys every
  -- element from that position on, since each is moved onto itself: the array keeps its size, and
  -- its last slots hold no object.
  pub insert_no_copies :
      (p : ℕ)
      → p ≤ v.size
      → v.begun ≡ true
      → contents (insert alloc v p 0 x).0 ≡ take p (contents v) ++ replicate (v.size - p) none
  unfolding insert insert_impl insert_blank_space fill_blank or_end fill
  insert_no_copies p le b =
      let t : ltb v.cap (v.size + 0) ≡ false = ground (arith, h.fits) in
      let e : v.size + 0 ≡ v.size = omega arith in
      let m = move_tail (v.size - p) v.size v.size v.mem in
      let z : 0 + p ≡ p = omega arith in
      let k = take-span v.mem 0 p v.size le in
      rw (t, e, b)
        (ap (λ n. span m 0 n) (let s : v.size ≡ p + (v.size - p) = omega arith in s)
          ∙ rw z at (span-append m 0 p (v.size - p))
          ∙ ap₂ ◌++◌
              (span_same m v.mem p (λ j lt.
                  move_tail_same (v.size - p) v.size v.mem j (omega arith)
                  ∙ (let g : leb (v.size - (v.size - p)) j ≡ false = ground arith in rw g))
                ∙ sym k)
              (span-replicate m p (v.size - p) none (λ j lt.
                move_tail_same (v.size - p) v.size v.mem (p + j) (omega arith)
                ∙ (let g : leb (v.size - (v.size - p)) (p + j) ≡ true = ground arith in
                    let l : ltb (p + j) v.size ≡ true = ground arith in rw (g, l)))))
