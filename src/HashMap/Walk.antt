-- ===== src/HashMap/Walk.antt =====
-- include/SkBase/HashMap_details.hxx: what a loop over the iterators meets.
use sketch.Base.{
  ℕ, zero, suc, ◌+◌, ◌-◌, ◌<◌, ◌≡◌, ◌≢◌, refl, sym, ◌∙◌, ap, arith, inl, inr, none, some, true,
  false, List, [], ◌∷◌, ◌++◌, length, length-append, length_zero, ◌==◌, Bool-cases, Option-cases,
}
use sketch.HashMap.{KeyPolicy, Bucket, Table, Position, end}
use sketch.HashMap.Query.{first_nonempty, begin, increment, walk}
use sketch.HashMap.Chain.{Chain}
use sketch.HashMap.Totals.{total, first_bound}
use sketch.HashMap.Holds.{Holds}
use sketch.HashMap.Insert.{empty_alike, head-count}

-- The nodes of all buckets from i on, bucket by bucket
abbrev pub nodes : ℕ → ℕ → (ℕ → List ℕ) → List ℕ
nodes zero i c = []
nodes (suc left) i c = c i ++ nodes left (suc i) c

pub length-nodes : (left i : ℕ) (c : ℕ → List ℕ) → length (nodes left i c) ≡ total left i c
length-nodes zero i c = refl
length-nodes (suc left) i c =
    omega (arith, length-append (c i) (nodes left (suc i) c), length-nodes left (suc i) c)

-- The first bucket that is not empty begins what is left.
nodes-first :
    (left i : ℕ) (bs : ℕ → Bucket) (c : ℕ → List ℕ) (m : ℕ)
    → ((n : ℕ) → ((bs n).elems == 0) ≡ (length (c n) == 0))
    → first_nonempty left i bs ≡ some m
    → nodes left i c ≡ c m ++ nodes (i + left - suc m) (suc m) c
unfolding first_nonempty
nodes-first zero i bs c m e f = cc
nodes-first (suc left) i bs c m e f = elim (Bool-cases ((bs i).elems == 0)) [
  | inl z ↦
      let void : c i ≡ [] = length_zero (c i) (ground (arith, e i)) in
      let count : i + suc left - suc m ≡ suc i + left - suc m = omega arith in
      rw (void, count) (nodes-first left (suc i) bs c m e (rw z at f))
  | inr z ↦
      let here : i ≡ m = cc (rw z at f) in
      let count : i + suc left - suc i ≡ left = omega arith in rw (← here, count)
]

nodes-none :
    (left i : ℕ) (bs : ℕ → Bucket) (c : ℕ → List ℕ)
    → ((n : ℕ) → ((bs n).elems == 0) ≡ (length (c n) == 0))
    → first_nonempty left i bs ≡ none
    → nodes left i c ≡ []
unfolding first_nonempty
nodes-none zero i bs c e f = refl
nodes-none (suc left) i bs c e f = elim (Bool-cases ((bs i).elems == 0)) [
  | inl z ↦
      let void : c i ≡ [] = length_zero (c i) (ground (arith, e i)) in
      rw void (nodes-none left (suc i) bs c e (rw z at f))
  | inr z ↦ let wrong : some i ≡ none = rw z at f in cc
]

module _ {ℓ} {K E : Type ℓ} (keys : KeyPolicy K E) {t : Table E} {c : ℕ → List ℕ}
    (w : Holds keys t c) where
  abbrev later : ℕ → List ℕ
  later n = nodes (t.max - suc n) (suc n) c

  walk_end : (fuel b : ℕ) → 0 < fuel → walk fuel t (record { p = 0; b = b }) ≡ some []
  unfolding walk
  walk_end zero b h = absurd (omega arith)
  walk_end (suc fuel) b h = refl

  walk-nodes :
      (fuel n p : ℕ) (xs : List ℕ)
      → Chain t.next p xs
      → p ≢ 0
      → n < t.max
      → length xs + length (later n) < fuel
      → walk fuel t (record { p = p; b = n }) ≡ some (xs ++ later n)
  unfolding walk increment
  walk-nodes zero n p xs l z b h = absurd (omega arith)
  walk-nodes (suc fuel) n p [] l z b h = absurd (z l)
  walk-nodes (suc fuel) n p (x ∷ y ∷ xs) l z b h =
      let here : (p == 0) ≡ false = ground arith in
      let next : t.next p ≡ t.next x = ap t.next l.0 in
      let more : (t.next x == 0) ≡ false = ground (arith, l.2) in
      let rest = walk-nodes fuel n (t.next x) (y ∷ xs) l.2 (ground (arith, l.2)) b (omega arith) in
      rw (here, next, more, rest, l.0)
  walk-nodes (suc fuel) n p (x ∷ []) l z b h =
      let here : (p == 0) ≡ false = ground arith in
      let next : (t.next p == 0) ≡ true = rw (l.0, l.2) in
      elim (Option-cases (first_nonempty (t.max - suc n) (suc n) t.buckets)) [
        | inl f ↦
            let void = nodes-none (t.max - suc n) (suc n) t.buckets c (empty_alike keys w) f in
            rw (here, next, f, walk_end fuel t.max (omega arith), void, l.0)
        | inr (m, f) ↦
            let bound = first_bound (t.max - suc n) (suc n) t.buckets m f in
            let count : suc n + (t.max - suc n) - suc m ≡ t.max - suc m = omega arith in
            let found : later n ≡ c m ++ later m =
              nodes-first (t.max - suc n) (suc n) t.buckets c m (empty_alike keys w) f
              ∙ ap (λ (left : ℕ). c m ++ nodes left (suc m) c) count in
            let rest =
              walk-nodes fuel m (t.buckets m).elems (c m) (w.slot m).linked bound.2 (omega arith)
                (omega (arith, ap length found, length-append (c m) (later m))) in
            rw (here, next, f, rest, found, l.0)
      ]

  total_nodes : length (nodes t.max 0 c) ≡ t.count
  total_nodes = length-nodes t.max 0 c ∙ sym w.counted

  -- Let a table hold its lists. A loop from `begin()` to `end()` meets every element once, bucket by bucket, as many as
  -- `size()` says.
  pub walk-begin :
      (first : Position) × (begin t ≡ first)
      × (walk (suc t.count) t first ≡ some (nodes t.max 0 c))
      × (length (nodes t.max 0 c) ≡ t.count)
  unfolding begin walk
  walk-begin = elim (Bool-cases (t.count == 0)) [
    | inl z ↦
        let none_left : t.count ≡ 0 = ground arith in
        let void : nodes t.max 0 c ≡ [] =
          length_zero (nodes t.max 0 c) (length-nodes t.max 0 c ∙ sym w.counted ∙ none_left) in
        (end, rw z, rw void, total_nodes)
    | inr z ↦ elim (Option-cases t.head) [
      | inl f ↦ absurd (ground (arith, (head-count keys w).0 f))
      | inr (m, f) ↦
          let first = sym w.headed ∙ f in
          let bound = first_bound t.max 0 t.buckets m first in
          let count : 0 + t.max - suc m ≡ t.max - suc m = omega arith in
          let found : nodes t.max 0 c ≡ c m ++ later m =
            nodes-first t.max 0 t.buckets c m (empty_alike keys w) first
            ∙ ap (λ (left : ℕ). c m ++ nodes left (suc m) c) count in
          let run =
            walk-nodes (suc t.count) m (t.buckets m).elems (c m) (w.slot m).linked bound.2
              (omega arith)
              (omega (arith, total_nodes, ap length found, length-append (c m) (later m))) in
          (
            record { p = (t.buckets m).elems; b = m },
            rw (z, f),
            run ∙ ap (λ (l : List ℕ). some l) (sym found),
            total_nodes,
          )
    ]
  ]
