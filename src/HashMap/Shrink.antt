-- ===== src/HashMap/Shrink.antt =====
-- include/SkBase/HashMap_details.hxx: the bucket and the head that a removal leaves.
use sketch.Base.{
  ℕ, ◌-◌, ◌≤◌, ◌≡◌, refl, sym, ◌∙◌, ap, arith, inl, inr, Option, none, some, Bool, true, false,
  List, [], ◌∷◌, length, ◌==◌, ==_iff, ==_self, Bool-cases, Option-cases, update,
}
use sketch.HashMap.{KeyPolicy, Bucket, Table, Position}
use sketch.HashMap.Query.{first_nonempty}
use sketch.HashMap.Erase.{shrink, renew, is_head}
use sketch.HashMap.Chain.{Back}
use sketch.HashMap.Holds.{Slot, Holds}

-- The head that `erase` finds is the first bucket that is left.
pub renew_head {ℓ} :
    {E : Type ℓ} (t : Table E) (n after : ℕ)
    → (is_head t.head n ≡ false → first_nonempty t.max 0 t.buckets ≡ t.head)
    → (renew t n after).0 ≡ first_nonempty t.max 0 t.buckets
unfolding renew
renew_head t n after keep = elim (Bool-cases (is_head t.head n)) [
  | inl s ↦ elim (Bool-cases (after == 0)) [
    | inl z ↦ elim (Option-cases (first_nonempty t.max 0 t.buckets)) [
      | inl f ↦ rw (z, f, s)
      | inr (m, f) ↦ rw (z, f, s)
    ]
    | inr z ↦ elim (Option-cases (first_nonempty t.max 0 t.buckets)) [
      | inl f ↦ rw (z, s, f, s)
      | inr (m, f) ↦ rw (z, s, f, s)
    ]
  ]
  | inr s ↦ elim (Bool-cases (after == 0)) [
    | inl z ↦ elim (Option-cases (first_nonempty t.max 0 t.buckets)) [
      | inl f ↦ rw (z, f, s) (sym (keep s) ∙ f)
      | inr (m, f) ↦ rw (z, f, s) (sym (keep s) ∙ f)
    ]
    | inr z ↦ rw (z, s) (sym (keep s))
  ]
]

-- The position is that of the first bucket; where there is none, its node is the next one.
abbrev pub Stands : (ℕ → Bucket) → Option ℕ → ℕ → Position → Type 0
Stands bs none after at = at.p ≡ after
Stands bs (some m) after at = at ≡ record { p = (bs m).elems; b = m }

pub renew-Stands {ℓ} :
    {E : Type ℓ} (t : Table E) (n after : ℕ)
    → is_head t.head n ≡ true
    → Stands t.buckets (renew t n after).0 after (renew t n after).1
unfolding renew
renew-Stands t n after s = elim (Bool-cases (after == 0)) [
  | inl z ↦ elim (Option-cases (first_nonempty t.max 0 t.buckets)) [
    | inl f ↦ rw (z, f, s)
    | inr (m, f) ↦ rw (z, f, s)
  ]
  | inr z ↦ elim (Option-cases (first_nonempty t.max 0 t.buckets)) [
    | inl f ↦ rw (z, s, f, s)
    | inr (m, f) ↦ rw (z, s, f, s)
  ]
]

pub is_head-some : (o : Option ℕ) (n : ℕ) → is_head o n ≡ true → o ≡ some n
is_head-some none n h = cc
is_head-some (some m) n h = ap (λ (q : ℕ). some q) ((==_iff m n).0 h)

module _ {ℓ} {K E : Type ℓ} (keys : KeyPolicy K E) where
  -- The table holds the lists c, with their links back, and no bucket has a third node.
  pub record Tidy (t : Table E) (c : ℕ → List ℕ) : Type 0 where
    pub holds : Holds keys t c
    pub back : (n : ℕ) → Back t.prev 0 (c n)
    pub short : (n : ℕ) → length (c n) ≤ 2

  abbrev pub Holding : Table E → ℕ → Bucket → List ℕ → Type 0
  Holding t n = Slot keys t.next t.hkey t.elem t.max n

  module _ (t : Table E) (n : ℕ) (b : Bucket) where
    -- The bucket after its only node went
    pub shrink_only :
        (a : ℕ)
        → Holding t n b (a ∷ [])
        → (b' : Bucket) × (shrink t b 0 ≡ some b') × Holding t n b' [] × (b'.elems ≡ 0)
    unfolding shrink
    shrink_only a s =
        let one : b.size - 1 ≡ 0 = ground (arith, s.sized) in
        (
          record { elems = 0; size = b.size - 1; hash = b.hash; dirty = false },
          rw one,
          record {
            linked = refl;
            sized = one;
            hashed = tt;
            homed = tt;
            pure = λ d. tt;
            first = tt;
            apart = tt;
            distinct = tt;
          },
          refl,
        )

    single :
        (a y h : ℕ) (d : Bool)
        → Holding t n b (a ∷ y ∷ [])
        → t.hkey y ≡ h
        → Holding t n (record { elems = y; size = b.size - 1; hash = h; dirty = d }) (y ∷ [])
    single a y h d s e = record {
      linked = (refl, s.linked.2.1, s.linked.2.2);
      sized = omega (arith, s.sized);
      hashed = s.hashed.1;
      homed = s.homed.1;
      pure = λ _. (e, tt);
      first = e;
      apart = (tt, tt);
      distinct = (refl, tt);
    }

    -- The bucket after the first of its two nodes went
    pub shrink_first :
        (a y : ℕ)
        → Holding t n b (a ∷ y ∷ [])
        → (b' : Bucket) × (shrink t b y ≡ some b') × Holding t n b' (y ∷ []) × (b'.elems ≡ y)
    unfolding shrink
    shrink_first a y s =
        let rest : ((b.size - 1) == 0) ≡ false = ground (arith, s.sized) in
        let some_node : (y == 0) ≡ false = ground (arith, s.linked) in
        elim (Bool-cases b.dirty) [
          | inl e ↦ elim (Bool-cases (b.hash == t.hkey y)) [
            | inl h ↦ (
              _,
              rw (rest, e, some_node, h),
              single a y b.hash true s (sym ((==_iff _ _).0 h)),
              refl,
            )
            | inr h ↦ (_, rw (rest, e, some_node, h), single a y (t.hkey y) false s refl, refl)
          ]
          | inr e ↦ (_, rw (rest, e), single a y b.hash false s (s.pure e).1.0, refl)
        ]

    -- The bucket after the second of its two nodes went
    pub drop_second :
        (a y : ℕ)
        → Holding t n b (a ∷ y ∷ [])
        → Slot keys
            (update t.next a 0)
            t.hkey
            t.elem
            t.max
            n
            (record b { size = b.size - 1 })
            (a ∷ [])
    drop_second a y s = record {
      linked = (s.linked.0, s.linked.1, rw (==_self a));
      sized = omega (arith, s.sized);
      hashed = (s.hashed.0, tt);
      homed = (s.homed.0, tt);
      pure = λ d. ((s.pure d).0, tt);
      first = s.first;
      apart = (tt, tt);
      distinct = (refl, tt);
    }
