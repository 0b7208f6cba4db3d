-- ===== src/HashMap/EraseKey.antt =====
-- include/SkBase/HashMap_details.hxx: `erase(key)` as an operation of a finite map.
use mathlib.Core.Option
use sketch.Base.{
  ℕ, ◌≤◌, ◌≡◌, ◌≢◌, refl, sym, ◌∙◌, ap, arith, inl, inr, some, true, false, List, [], ◌∷◌, length,
  ◌==◌, ==_iff, Bool-cases, if◌then◌else◌, update,
}
use sketch.HashMap.{KeyPolicy, Table, Position, end, mapkey}
use sketch.HashMap.Query.{bucket, find}
use sketch.HashMap.Erase.{erase, erase_key}
use sketch.HashMap.Chain.{locate}
use sketch.HashMap.Holds.{Slot, Distinct}
use sketch.HashMap.Find.{find-locate, position}
use sketch.HashMap.Shrink.{Tidy}
use sketch.HashMap.Remove.{erase_only, erase_first, erase_second}

module _ {ℓ} {K E : Type ℓ} (keys : KeyPolicy K E) where
  equal_like : (q k a : K) → keys.equal k a ≡ true → keys.equal q a ≡ keys.equal q k
  equal_like q k a e = keys.equal_sym q a ∙ sym (keys.equal_congr k a q e) ∙ keys.equal_sym k q

  abbrev Without : (ℕ → E) → K → List ℕ → List ℕ → Type ℓ
  Without elem k xs ys =
      (q : K) → locate keys elem q ys ≡ (if keys.equal q k then 0 else locate keys elem q xs)

  Without-only :
      (elem : ℕ → E) (k : K) (a : ℕ)
      → keys.equal k (keys.key (elem a)) ≡ true
      → Without elem k (a ∷ []) []
  Without-only elem k a e q = rw (equal_like q k (keys.key (elem a)) e) (ground arith)

  Without-first :
      (elem : ℕ → E) (k : K) (a y : ℕ)
      → keys.equal k (keys.key (elem a)) ≡ true
      → y ≢ 0
      → Distinct keys elem (a ∷ y ∷ [])
      → Without elem k (a ∷ y ∷ []) (y ∷ [])
  Without-first elem k a y e z d q =
      rw (← equal_like q k (keys.key (elem a)) e)
        (ground (arith, keys.equal_congr q (keys.key (elem a)) (keys.key (elem y))))

  Without-second :
      (elem : ℕ → E) (k : K) (a y : ℕ)
      → keys.equal k (keys.key (elem a)) ≡ false
      → keys.equal k (keys.key (elem y)) ≡ true
      → Without elem k (a ∷ y ∷ []) (a ∷ [])
  Without-second elem k a y n e q =
      rw (equal_like q k (keys.key (elem y)) e)
        (ground (arith, keys.equal_congr q k (keys.key (elem a))))

  module _ {t : Table E} {c : ℕ → List ℕ} (w : Tidy keys t c) (k : K) where
    abbrev home : ℕ
    home = bucket keys t k

    -- The node with the key k leaves its bucket, which held xs.
    abbrev Leaves : List ℕ → Type ℓ
    Leaves xs =
        (t' : Table E) × (at : Position) × (ys : List ℕ) × (erase t
            (record { p = locate keys t.elem k xs; b = home })
          ≡ some (t', at))
        × Tidy keys t' (update c home ys)
        × (t'.elem ≡ t.elem)
        × (t'.max ≡ t.max)
        × Without t.elem k xs ys

    erase_located :
        (xs : List ℕ)
        → c home ≡ xs
        → Slot keys t.next t.hkey t.elem t.max home (t.buckets home) xs
        → length xs ≤ 2
        → locate keys t.elem k xs ≢ 0
        → Leaves xs
    erase_located [] e s l f = absurd (f refl)
    erase_located (a ∷ []) e s l f = elim (Bool-cases (keys.equal k (keys.key (t.elem a)))) [
      | inl h ↦
          let (t', at, run, w', same, sized, _, _) = erase_only keys w home a e in
          (t', at, [], rw h run, w', same, sized, Without-only t.elem k a h)
      | inr h ↦ absurd (f (rw h))
    ]
    erase_located (a ∷ y ∷ []) e s l f = elim (Bool-cases (keys.equal k (keys.key (t.elem a)))) [
      | inl h ↦
          let (t', at, run, w', same, sized, _, _) = erase_first keys w home a y e in
          (
            t',
            at,
            y ∷ [],
            rw h run,
            w',
            same,
            sized,
            Without-first t.elem k a y h s.linked.2.1 s.distinct,
          )
      | inr n ↦ elim (Bool-cases (keys.equal k (keys.key (t.elem y)))) [
        | inl h ↦
            let (t', at, run, w', same, sized) = erase_second keys w home a y e in
            (t', at, a ∷ [], rw (n, h) run, w', same, sized, Without-second t.elem k a y n h)
        | inr h ↦ absurd (f (rw (n, h)))
      ]
    ]
    erase_located (a ∷ y ∷ z ∷ xs) e s l f = absurd (omega arith)

    -- How `find` reads the table after the node left
    find_left :
        {t' : Table E} (ys : List ℕ)
        → Tidy keys t' (update c home ys)
        → (t'.elem ≡ t.elem)
        → (t'.max ≡ t.max)
        → Without t.elem k (c home) ys
        → (q : K) → find keys t' q ≡ (if keys.equal q k then some end else find keys t q)
    unfolding bucket
    find_left {t'} ys w' same sized left q =
        let n = bucket keys t q in
        rw (find-locate keys w'.holds q) (
          rw (find-locate keys w.holds q, sized, same)
            (elim (Bool-cases (home == n)) [
              | inl e ↦
                  let here : home ≡ n = (==_iff home n).0 e in
                  rw (e, left q)
                    (elim (Bool-cases (keys.equal q k)) [
                      | inl h ↦ rw h
                      | inr h ↦
                          rw h (ap (λ (m : ℕ). some (position n (locate keys t.elem q (c m)))) here)
                    ])
              | inr e ↦
                  let differ : keys.equal q k ≡ false = elim (Bool-cases (keys.equal q k)) [
                    | inl h ↦
                        let together : n ≡ home = ap (mapkey t.max) (keys.hash_equal q k h) in
                        absurd (ground arith)
                    | inr h ↦ h
                  ] in
                  rw (e, differ)
            ]))

    -- Let a table hold its lists, with links back and no bucket of three nodes. A key that `find`
    -- gives a node for is erased: one element is reported, the table stays such a table, `find`
    -- gives the end for every key equal to the erased one, and for all others what it gave before.
    pub find-erase_key :
        find keys t k ≢ some end
        → (q : K)
        → (t' : Table E) × (c' : ℕ → List ℕ) × (erase_key keys t k ≡ some (t', 1))
          × Tidy keys t' c'
          × (find keys t' q ≡ (if keys.equal q k then some end else find keys t q))
    unfolding erase_key Option.bind
    find-erase_key present q =
        let found = find-locate keys w.holds k in
        let f : locate keys t.elem k (c home) ≢ 0 = λ z. present (found ∙ rw z) in
        let (t', at, ys, run, w', same, sized, left) =
          erase_located (c home) refl (w.holds.slot home) (w.short home) f in
        let hit : (locate keys t.elem k (c home) == 0) ≡ false = ground arith in
        (t', update c home ys, rw (found, hit, hit, run), w', find_left ys w' same sized left q)

    pub erase_key_absent : find keys t k ≡ some end → erase_key keys t k ≡ some (t, 0)
    unfolding erase_key Option.bind
    erase_key_absent absent = rw absent
