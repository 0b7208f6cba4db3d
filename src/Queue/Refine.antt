-- ===== src/Queue/Refine.antt =====
-- include/SkBase/Queue.hxx: `push` and `pop` against the list of pointers.
use sketch.Base.{
  ℕ, zero, suc, ◌+◌, ◌-◌, ◌%◌, ◌≤◌, ◌<◌, ◌≡◌, ◌≢◌, refl, sym, ap, ap₂, ◌∙◌, List, [], ◌∷◌, ◌++◌,
  length, some, true, false, arith, ltb, leb, ◌==◌, ==_self, update, update_ne, Bool-cases, inl,
  inr,
}
use sketch.Queue.{Queue, make, push, push_loop, pop, pop_loop, make_vacant_tag, is_vacant_tag}
use sketch.Queue.Fifo.{put, get}
use sketch.Vector.Span.{span, span_ext, span-append}

-- Counts less than the capacity apart have different slots.
slot-ne : (a b c : ℕ) → a < b → b < a + c → a % c ≢ b % c
slot-ne a b c h k e = grind arith

slot_small : (a c : ℕ) → a < c → a % c ≡ a
slot_small a c h = grind arith

slot_again : (a c : ℕ) → c ≢ 0 → (a + c) % c ≡ a % c
slot_again a c h = grind arith

abbrev pub at_count : Queue → ℕ → ℕ
at_count q i = q.slots (i % q.capacity)

-- The pointers from the count of the next `pop` up to that of the next `push`.
abbrev pub contents : Queue → List ℕ
contents q = span (at_count q) q.gets (q.puts - q.gets)

module _ (hash : ℕ → ℕ) where
  -- The slots between the counts hold pointers, and the others the tag of their next count.
  pub record IsValid (q : Queue) : Type 0 where
    pub some_room : q.capacity ≢ 0
    pub order : q.gets ≤ q.puts
    pub fits : q.puts ≤ q.gets + q.capacity
    pub items : (i : ℕ) → q.gets ≤ i → i < q.puts → is_vacant_tag (at_count q i) ≡ false
    pub vacant :
        (i : ℕ) → q.puts ≤ i → i < q.gets + q.capacity → at_count q i ≡ make_vacant_tag hash i

  pub length-contents : (f : ℕ → ℕ) (p n : ℕ) → length (span f p n) ≡ n
  length-contents f p zero = refl
  length-contents f p (suc n) = ap suc (length-contents f (suc p) n)

  -- The queue after a pointer was put, and after one was taken.
  abbrev pushed : Queue → ℕ → Queue
  pushed q p = record q { slots = update q.slots (q.puts % q.capacity) p; puts = q.puts + 1 }

  abbrev popped : Queue → Queue
  popped q = record q {
    slots = update q.slots (q.gets % q.capacity) (make_vacant_tag hash (q.gets + q.capacity));
    gets = q.gets + 1;
  }

  module _ (q : Queue) (v : IsValid q) where
    pushed-IsValid :
        (p : ℕ) → q.puts < q.gets + q.capacity → is_vacant_tag p ≡ false → IsValid (pushed q p)
    pushed-IsValid p lt h = record {
      some_room = v.some_room;
      order = omega (arith, v.order);
      fits = omega arith;
      items = λ i lo hi. elim (Bool-cases (i == q.puts)) [
        | inl t ↦
            let e : i ≡ q.puts = ground arith in
            rw e (let u = ==_self (q.puts % q.capacity) in rw u h)
        | inr f ↦
            let n =
              update_ne q.slots (q.puts % q.capacity) (i % q.capacity) p
                (λ e. slot-ne i q.puts q.capacity (ground arith) (omega (arith, v.fits)) (sym e)) in
            rw n (v.items i lo (ground arith))
      ];
      vacant = λ i lo hi.
          update_ne q.slots (q.puts % q.capacity) (i % q.capacity) p
            (slot-ne q.puts i q.capacity (omega arith) (omega (arith, v.order)))
          ∙ v.vacant i (omega arith) hi;
    }

    contents-pushed :
        (p : ℕ) → q.puts < q.gets + q.capacity → contents (pushed q p) ≡ contents q ++ p ∷ []
    contents-pushed p lt =
        let n : q.puts + 1 - q.gets ≡ q.puts - q.gets + 1 = omega (arith, v.order) in
        let e : q.gets + (q.puts - q.gets) ≡ q.puts = omega (arith, v.order) in
        let u = ==_self (q.puts % q.capacity) in
        rw n (
          span-append (at_count (pushed q p)) q.gets (q.puts - q.gets) 1
          ∙ ap₂ ◌++◌
              (span_ext (at_count (pushed q p)) (at_count q) q.gets q.gets (q.puts - q.gets) (λ j b.
                update_ne q.slots (q.puts % q.capacity) ((q.gets + j) % q.capacity) p (λ s.
                  slot-ne (q.gets + j) q.puts q.capacity (omega arith) (omega arith) (sym s))))
              (rw (e, u)))

    -- `push` does on the tagged slots what `put` does on the list: it ends, its answer is the same,
    -- and the slots hold the pointers of the list, and tags elsewhere, after it as before.
    pub push-put :
        (p : ℕ)
        → (out : Queue) × (push hash q p ≡ some (out, (put q.capacity (contents q) p).1))
          × IsValid out
          × (out.capacity ≡ q.capacity)
          × (contents out ≡ (put q.capacity (contents q) p).0)
    unfolding push put push_loop
    push-put p =
        let l : length (contents q) ≡ q.puts - q.gets =
          length-contents (at_count q) q.gets (q.puts - q.gets) in
        elim (Bool-cases (is_vacant_tag p)) [
          | inl t ↦ rw t (q, refl, v, refl, refl)
          | inr f ↦ elim (Bool-cases (ltb (q.puts - q.gets) q.capacity)) [
            | inr m ↦
                let k : leb q.capacity (length (contents q)) ≡ true = ground arith in
                (q, rw (f, k, m), v, refl, rw (f, k))
            | inl t ↦
                let k : leb q.capacity (length (contents q)) ≡ false = ground arith in
                let r : q.puts < q.gets + q.capacity = ground arith in
                let g = v.vacant q.puts (omega arith) r in
                let s = ==_self (make_vacant_tag hash q.puts) in
                let u = ==_self q.puts in
                (
                  pushed q p,
                  rw (f, k, t, g, s, u),
                  pushed-IsValid p r f,
                  refl,
                  rw (f, k) (contents-pushed p r),
                )
          ]
        ]

    popped-IsValid : q.gets < q.puts → IsValid (popped q)
    popped-IsValid lt = record {
      some_room = v.some_room;
      order = omega arith;
      fits = omega (arith, v.fits);
      items = λ i lo hi.
          let n =
            update_ne q.slots (q.gets % q.capacity) (i % q.capacity)
              (make_vacant_tag hash (q.gets + q.capacity))
              (slot-ne q.gets i q.capacity (omega arith) (omega (arith, v.fits))) in
          rw n (v.items i (omega arith) hi);
      vacant = λ i lo hi. elim (Bool-cases (i == q.gets + q.capacity)) [
        | inl t ↦
            let e : i ≡ q.gets + q.capacity = ground arith in
            let s = slot_again q.gets q.capacity v.some_room in
            let u = ==_self (q.gets % q.capacity) in rw (e, s, u)
        | inr f ↦
            update_ne q.slots (q.gets % q.capacity) (i % q.capacity)
              (make_vacant_tag hash (q.gets + q.capacity))
              (slot-ne q.gets i q.capacity (omega arith) (ground arith))
            ∙ v.vacant i lo (ground arith)
      ];
    }

    contents-popped : q.gets < q.puts → contents q ≡ at_count q q.gets ∷ contents (popped q)
    contents-popped lt =
        let n : q.puts - q.gets ≡ suc (q.puts - (q.gets + 1)) = omega arith in
        let e : q.gets + 1 ≡ suc q.gets = omega arith in
        rw n (
          ap (λ l. at_count q q.gets ∷ l)
            (span_ext (at_count q) (at_count (popped q)) (suc q.gets) (q.gets + 1)
              (q.puts - (q.gets + 1))
              (λ j b.
                let z : suc q.gets + j ≡ q.gets + 1 + j = omega arith in
                rw z (
                  sym (
                    update_ne q.slots (q.gets % q.capacity) ((q.gets + 1 + j) % q.capacity)
                      (make_vacant_tag hash (q.gets + q.capacity))
                      (slot-ne q.gets (q.gets + 1 + j) q.capacity (omega arith)
                        (omega (arith, v.fits))))))))

    -- `pop` does on the tagged slots what `get` does on the list, in the same sense.
    pub pop-get :
        (out : Queue) × (pop hash q ≡ some (out, (get (contents q)).1))
        × IsValid out
        × (out.capacity ≡ q.capacity)
        × (contents out ≡ (get (contents q)).0)
    unfolding pop get pop_loop
    pop-get = elim (Bool-cases (ltb q.gets q.puts)) [
      | inr f ↦ let z : q.puts - q.gets ≡ 0 = ground arith in (q, rw (f, z), v, refl, rw z)
      | inl t ↦
          let c = contents-popped (ground arith) in
          let i = v.items q.gets (omega arith) (ground arith) in
          let u = ==_self (at_count q q.gets) in
          let w = ==_self q.gets in
          (popped q, rw (t, c, u, i, w), popped-IsValid (ground arith), refl, rw c)
    ]

  pub make-IsValid : (n : ℕ) → n ≢ 0 → IsValid (make hash n) × (contents (make hash n) ≡ [])
  unfolding make
  make-IsValid n h = (
    record {
      some_room = h;
      order = omega arith;
      fits = omega arith;
      items = λ i lo hi. absurd (omega arith);
      vacant = λ i lo hi. ap (make_vacant_tag hash) (slot_small i n (omega arith));
    },
    refl,
  )
