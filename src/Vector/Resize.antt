-- ===== src/Vector/Resize.antt =====
-- include/SkBase/Vector.hxx: `resize` in its two forms, and `assign`.
use sketch.Base.{
  ℕ, zero, suc, ◌+◌, ◌-◌, ◌*◌, ◌^◌, ◌≤◌, ◌<◌, ◌≡◌, refl, sym, ap, ◌∙◌, [], ◌∷◌, ◌++◌, append-nil,
  Option, some, none, Bool, true, false, arith, ltb, ◌==◌, Bool-cases, inl, inr, ◌⊎◌, take, not,
  ◌&&◌, take_all, drop_all, replicate, length,
}
use sketch.Vector.{
  Vec, resize, resize_with, succeeded, insert_impl_move, move_blank, assign, construct_n, clear,
  fill,
}
use sketch.Vector.Span.{IsValid, contents, span, span-replicate}
use sketch.Vector.Loops.{fill_lem}
use sketch.Vector.Blank.{Room, insert_blank_space_refused}
use sketch.Vector.Insert.{contents-insert_copies, insert_refused}
use sketch.Vector.Erase.{contents-erase_range}

pub length-span {ℓ} : {B : Type ℓ} (f : ℕ → B) (p n : ℕ) → length (span f p n) ≡ n
length-span f p zero = refl
length-span f p (suc n) = ap suc (length-span f (suc p) n)

module _ {ℓ} {A : Type ℓ} (alloc : ℕ → Bool) (bounded : (n : ℕ) → alloc n ≡ true → n < 2 ^ 61)
    (max_size : ℕ) (no_dtor : Bool) (v : Vec A) (h : IsValid v) where
  -- `resize(sz, c)` of a well formed array, with `sz` within `max_size` and below 2^62, where the
  -- array need not grow, or has room, or the allocator, which refuses 2^61 elements and more, gives
  -- the larger block: it succeeds, and the array is well formed and has `sz` elements, the first
  -- ones of before and then copies of `c`.
  pub contents-resize_with :
      (sz : ℕ) (c : A)
      → sz ≤ max_size
      → sz < 2 ^ 62
      → (sz ≤ v.size) ⊎ Room alloc v (sz - v.size)
      → (out : Vec A) × (resize_with alloc max_size no_dtor v sz c ≡ some (out, true))
        × IsValid out
        × (contents out ≡ take sz (contents v) ++ replicate (sz - v.size) (some c))
  unfolding resize_with succeeded
  contents-resize_with sz c m big room =
      let k : ltb max_size sz ≡ false = ground arith in
      elim (Bool-cases (ltb sz v.size)) [
        | inl t ↦
            let e = contents-erase_range v h no_dtor sz v.size (ground arith) (omega arith) in
            let z : sz - v.size ≡ 0 = ground arith in
            let d = drop_all v.size (contents v) (omega (arith, length-span v.mem 0 v.size)) in
            let whole : (not no_dtor && (ltb sz v.size && ltb v.size v.size)) ≡ false =
              ground arith in
            (e.0, rw (k, t, e.1, whole) refl, e.2, rw z (e.3 ∙ rw d))
        | inr f ↦ elim (Bool-cases (ltb v.size sz)) [
          | inl t ↦
              let r : Room alloc v (sz - v.size) = ground arith in
              let i =
                contents-insert_copies alloc bounded v h v.size (sz - v.size) (omega arith)
                  (omega arith) c (ground arith) r in
              let d = drop_all v.size (contents v) (omega (arith, length-span v.mem 0 v.size)) in
              let u = take_all v.size (contents v) (omega (arith, length-span v.mem 0 v.size)) in
              let w = take_all sz (contents v) (ground (arith, length-span v.mem 0 v.size)) in
              (
                i.0,
                rw (k, f, t, i.1),
                i.2,
                i.3 ∙ rw (d, u, w) (ap (λ l. contents v ++ l) (append-nil _)),
              )
          | inr g ↦
              let z : sz - v.size ≡ 0 = ground arith in
              let w = take_all sz (contents v) (ground (arith, length-span v.mem 0 v.size)) in
              (v, rw (k, f, g), h, rw (z, w) (sym (append-nil _)))
        ]
      ]

  -- Where a well formed array with storage has to get more of it, for a size within `max_size` and
  -- below 2^62, and the allocator refuses the block, nothing changes in either form of `resize`:
  -- `resize(sz)` reports the failure, but `resize(sz, c)` reports success.
  pub resize_refused :
      (moved : A → A) (sz : ℕ) (c : A)
      → sz ≤ max_size
      → v.cap < sz
      → sz < 2 ^ 62
      → v.begun ≡ true
      → alloc (sz - v.size + (v.cap + 4) * 2) ≡ false
      → (resize alloc max_size no_dtor moved v sz c ≡ some (v, false))
        × (resize_with alloc max_size no_dtor v sz c ≡ some (v, true))
  unfolding resize resize_with succeeded insert_impl_move move_blank
  resize_refused moved sz c m lt big b a =
      let k : ltb max_size sz ≡ false = ground arith in
      let f : ltb sz v.size ≡ false = ground (arith, h.fits) in
      let t : ltb v.size sz ≡ true = ground (arith, h.fits) in
      let n : v.cap < v.size + (sz - v.size) = omega arith in
      let e =
        insert_blank_space_refused alloc bounded v h v.size (sz - v.size) (omega arith)
          (omega arith) n a in
      let i =
        insert_refused alloc bounded v h v.size (sz - v.size) (omega arith) (omega arith) c n a in
      (rw (k, f, t, e), rw (k, f, t, i, b))

module _ {ℓ} {A : Type ℓ} (alloc : ℕ → Bool) (bounded : (n : ℕ) → alloc n ≡ true → n < 2 ^ 61)
    (no_dtor : Bool) (v : Vec A) (h : IsValid v) where
  -- `n` copies at the front of a block.
  copies_at : (m : ℕ → Option A) (n : ℕ) (u : A) (j : ℕ) → j < n → fill 0 n u m j ≡ some u
  copies_at m n u j lt = fill_lem 0 n u m j ∙ ground arith

  contents-copies :
      (m : ℕ → Option A) (n : ℕ) (u : A) → span (fill 0 n u m) 0 n ≡ replicate n (some u)
  contents-copies m n u =
      span-replicate (fill 0 n u m) 0 n (some u)
        (λ j lt. let a : 0 + j ≡ j = omega arith in rw a (copies_at m n u j lt))

  -- `assign(n, u)` makes a well formed array `n` copies of `u`, and leaves it well formed, where
  -- the capacity is enough or the allocator, which refuses 2^61 elements and more, gives a block of
  -- `n`.
  pub contents-assign :
      (n : ℕ) (u : A)
      → (n ≤ v.cap) ⊎ (alloc n ≡ true)
      → (out : Vec A) × (assign alloc no_dtor v n u ≡ (out, true))
        × IsValid out
        × (contents out ≡ replicate n (some u))
  unfolding assign construct_n clear
  contents-assign n u room = elim (Bool-cases (n == 0)) [
    | inl z ↦
        let e : n ≡ 0 = ground arith in
        rw (z, e)
          (
            clear no_dtor v,
            refl,
            record {
              fits = omega arith;
              small = h.small;
              stored = h.stored;
              live = λ i lt. absurd (omega arith);
            },
            refl,
          )
    | inr z ↦ elim (Bool-cases (ltb v.cap n)) [
      | inl t ↦
          let a : alloc n ≡ true = ground arith in
          rw (z, t, a)
            (
              record {
                begun = true;
                mem = fill 0 n u (λ _. none);
                size = n;
                cap = n;
                freed = v.cap ∷ v.freed;
              },
              refl,
              record {
                fits = omega arith;
                small = bounded n a;
                stored = inl refl;
                live = λ i lt. (u, copies_at (λ _. none) n u i lt);
              },
              contents-copies (λ _. none) n u,
            )
      | inr f ↦
          let m = (clear no_dtor v).mem in
          rw (z, f)
            (
              record v { mem = fill 0 n u m; size = n },
              refl,
              record {
                fits = ground arith;
                small = h.small;
                stored = h.stored;
                live = λ i lt. (u, copies_at m n u i lt);
              },
              contents-copies m n u,
            )
    ]
  ]

  -- Otherwise the array is empty and well formed, and has no storage.
  pub assign_refused :
      (n : ℕ) (u : A)
      → v.cap < n
      → alloc n ≡ false
      → ((assign alloc no_dtor v n u).1 ≡ false)
        × IsValid (assign alloc no_dtor v n u).0
        × (contents (assign alloc no_dtor v n u).0 ≡ [])
        × ((assign alloc no_dtor v n u).0.cap ≡ 0)
  unfolding assign construct_n clear
  assign_refused n u lt a =
      let z : (n == 0) ≡ false = ground arith in
      let t : ltb v.cap n ≡ true = ground arith in
      rw (z, t, a)
        (
          refl,
          record {
            fits = omega arith;
            small = omega arith;
            stored = inr refl;
            live = λ i b. absurd (omega arith);
          },
          refl,
          refl,
        )
