-- ===== src/HashMap/Totals.antt =====
-- include/SkBase/HashMap_details.hxx: the count of all nodes and the first bucket that has one.
use sketch.Base.{
  ℕ, zero, suc, ◌+◌, ◌≤◌, ◌<◌, ◌≡◌, ◌≢◌, refl, sym, ap, arith, inl, inr, Option, none, some, true,
  false, List, length, ltb, ◌==◌, ==_iff, Bool-cases, if◌then◌else◌, update,
}
use sketch.HashMap.{Bucket}
use sketch.HashMap.Query.{first_nonempty}

-- How many nodes the lists hold, from the bucket i on
abbrev pub total : ℕ → ℕ → (ℕ → List ℕ) → ℕ
total zero i c = 0
total (suc left) i c = length (c i) + total left (suc i) c

total_before :
    (left i n : ℕ) (c : ℕ → List ℕ) (xs : List ℕ)
    → n < i
    → total left i (update c n xs) ≡ total left i c
total_before zero i n c xs h = refl
total_before (suc left) i n c xs h =
    let other : (n == i) ≡ false = ground arith in
    rw (other, total_before left (suc i) n c xs (omega arith))

pub total-update :
    (left i n : ℕ) (c : ℕ → List ℕ) (xs : List ℕ)
    → i ≤ n
    → n < i + left
    → total left i (update c n xs) + length (c n) ≡ total left i c + length xs
total-update zero i n c xs h k = absurd (omega arith)
total-update (suc left) i n c xs h k = elim (Bool-cases (n == i)) [
  | inl e ↦
      let same : n ≡ i = (==_iff n i).0 e in
      let before = total_before left (suc i) n c xs (omega arith) in
      rw (e, before, same) (omega arith)
  | inr e ↦ rw e (omega (arith, total-update left (suc i) n c xs (ground arith) (omega arith)))
]

-- The earlier of the bucket n and the bucket that was first
abbrev pub earlier : Option ℕ → ℕ → Option ℕ
earlier none n = some n
earlier (some m) n = if ltb n m then some n else some m

pub first_bound :
    (left i : ℕ) (bs : ℕ → Bucket) (m : ℕ)
    → first_nonempty left i bs ≡ some m
    → (i ≤ m) × (m < i + left) × ((bs m).elems ≢ 0)
unfolding first_nonempty
first_bound zero i bs m f = cc
first_bound (suc left) i bs m f = ground (arith, first_bound left (suc i) bs m)

earlier_later : (o : Option ℕ) (n : ℕ) → ((m : ℕ) → o ≡ some m → suc n ≤ m) → some n ≡ earlier o n
earlier_later none n h = refl
earlier_later (some m) n h = ground (arith, h m refl)

pub first-update :
    (left i n : ℕ) (bs : ℕ → Bucket) (b : Bucket)
    → i ≤ n
    → n < i + left
    → (bs n).elems ≡ 0
    → b.elems ≢ 0
    → first_nonempty left i (update bs n b) ≡ earlier (first_nonempty left i bs) n
unfolding first_nonempty
first-update zero i n bs b h k z d = absurd (omega arith)
first-update (suc left) i n bs b h k z d = elim (Bool-cases (n == i)) [
  | inl e ↦
      let same : n ≡ i = (==_iff n i).0 e in
      let full : (b.elems == 0) ≡ false = ground arith in
      let void : ((bs i).elems == 0) ≡ true = rw (← same, z) in
      rw (e, full, void, same)
        (earlier_later (first_nonempty left (suc i) bs) i
          (λ m f. (first_bound left (suc i) bs m f).0))
  | inr e ↦ rw e (elim (Bool-cases ((bs i).elems == 0)) [
    | inl z' ↦ rw z' (first-update left (suc i) n bs b (ground arith) (omega arith) z d)
    | inr z' ↦ rw z' (ground arith)
  ])
]

-- A bucket that was not the first may be emptied.
pub first_emptied :
    (left i n : ℕ) (bs : ℕ → Bucket) (b : Bucket)
    → b.elems ≡ 0
    → first_nonempty left i bs ≢ some n
    → first_nonempty left i (update bs n b) ≡ first_nonempty left i bs
unfolding first_nonempty
first_emptied zero i n bs b z d = refl
first_emptied (suc left) i n bs b z d = elim (Bool-cases ((bs i).elems == 0)) [
  | inl e ↦
      let rest = first_emptied left (suc i) n bs b z (rw e at d) in
      let z' : (b.elems == 0) ≡ true = rw z in
      elim (Bool-cases (n == i)) [ inl s ↦ rw (s, z', e, rest) | inr s ↦ rw (s, e, rest) ]
  | inr e ↦
      let other : (n == i) ≡ false = elim (Bool-cases (n == i)) [
        | inl s ↦ absurd (d (rw e (ap (λ (m : ℕ). some m) (sym ((==_iff n i).0 s)))))
        | inr s ↦ s
      ] in
      rw (other, e)
]

-- A bucket that stays empty, or stays not empty, moves no first bucket.
pub first_keep :
    (left i n : ℕ) (bs : ℕ → Bucket) (b : Bucket)
    → (b.elems == 0) ≡ ((bs n).elems == 0)
    → first_nonempty left i (update bs n b) ≡ first_nonempty left i bs
unfolding first_nonempty
first_keep zero i n bs b e = refl
first_keep (suc left) i n bs b e = elim (Bool-cases (n == i)) [
  | inl s ↦
      let same : n ≡ i = (==_iff n i).0 s in
      let rest = first_keep left (suc i) n bs b e in
      let e' : (b.elems == 0) ≡ ((bs i).elems == 0) = rw (← same) e in rw (s, e', rest)
  | inr s ↦ rw (s, first_keep left (suc i) n bs b e)
]

-- Where the lists hold nothing, no bucket is found; where they hold something, one is.
pub first-total :
    (left i : ℕ) (bs : ℕ → Bucket) (c : ℕ → List ℕ)
    → ((n : ℕ) → ((bs n).elems == 0) ≡ (length (c n) == 0))
    → (total left i c ≡ 0 → first_nonempty left i bs ≡ none)
      × (total left i c ≢ 0 → first_nonempty left i bs ≢ none)
unfolding first_nonempty
first-total zero i bs c e = (λ h. refl, λ h. absurd (h refl))
first-total (suc left) i bs c e =
    let rest = first-total left (suc i) bs c e in
    (λ h. ground (arith, e i, rest.0), λ h. ground (arith, e i, rest.1))
