-- ===== src/HashMap/Find.antt =====
-- include/SkBase/HashMap_details.hxx: `find` and `insert_impl` as operations of a finite map.
use mathlib.Core.Option
use sketch.Base.{
  ℕ, suc, ◌≡◌, ◌≢◌, refl, sym, ◌∙◌, ap, arith, inl, inr, ◌||◌, some, true, false, List, [], ◌∷◌,
  length_zero, ◌==◌, ==_iff, ==_self, Bool-cases, if◌then◌else◌, update,
}
use sketch.HashMap.{KeyPolicy, Table, Position, end, mapkey, place, duplicate, insert_impl}
use sketch.HashMap.Query.{bucket, find}
use sketch.HashMap.Chain.{
  Chain, Avoids, locate, second, front, locate-AllHash, scan-locate, find_from-locate,
}
use sketch.HashMap.Holds.{Slot, IsFree, Holds}
use sketch.HashMap.Frame.{locate_write}
use sketch.HashMap.Insert.{place_alone, place_behind}

-- The position of a node of the bucket n, where 0 stands for none
abbrev pub position : ℕ → ℕ → Position
position n p = if p == 0 then end else record { p = p; b = n }

pub position-end : (n q : ℕ) → position n q ≡ end → q ≡ 0
position-end n q e = let node : (position n q).p ≡ 0 = rw e in ground arith

-- The lists after the new node p joined the bucket n
abbrev pub joined : (ℕ → List ℕ) → ℕ → ℕ → ℕ → List ℕ
joined c n p = update c n (second p (c n))

module _ {ℓ} {K E : Type ℓ} (keys : KeyPolicy K E) where
  -- `find` gives the node that holds the key, if the table holds one.
  pub find-locate :
      {t : Table E} {c : ℕ → List ℕ}
      → Holds keys t c
      → (k : K)
      → find keys t k
        ≡ some (position (bucket keys t k) (locate keys t.elem k (c (bucket keys t k))))
  unfolding find
  find-locate {t} {c} w k =
      let n = bucket keys t k in
      let s = w.slot n in
      let run =
        find_from-locate keys t k (suc (t.buckets n).size) (t.buckets n).elems (c n)
          (omega (arith, s.sized)) s.linked in
      elim (Bool-cases ((t.buckets n).size == 0)) [
        | inl e ↦ let void : c n ≡ [] = length_zero (c n) (ground (arith, s.sized)) in rw (e, void)
        | inr e ↦ rw (e, run)
      ]

  pub duplicate-locate :
      {t : Table E} {c : ℕ → List ℕ}
      → Holds keys t c
      → (k : K) (n : ℕ) → duplicate keys t k n ≡ some (locate keys t.elem k (c n))
  unfolding duplicate
  duplicate-locate {t} {c} w k n = go (c n) (w.slot n)
    where
      go :
          (xs : List ℕ)
          → Slot keys t.next t.hkey t.elem t.max n (t.buckets n) xs
          → duplicate keys t k n ≡ some (locate keys t.elem k xs)
      go [] s = rw s.linked
      go (x ∷ xs) s =
          let h = keys.hash k in
          let b = t.buckets n in
          let full : (b.elems == 0) ≡ false = ground (arith, s.linked) in
          let run =
            scan-locate keys t k (suc b.size) b.elems (x ∷ xs) (omega (arith, s.sized)) s.linked
              s.hashed in
          elim (Bool-cases (b.hash == h || b.dirty)) [
            | inl e ↦ rw (full, e, run)
            | inr e ↦
                rw (full, e)
                  (ap some (
                    sym (
                      locate-AllHash keys t.elem t.hkey k b.hash (x ∷ xs) s.hashed
                        (s.pure (ground arith)) (ground arith))))
          ]

  -- Keys that are equal stand in the same place.
  locate_congr :
      (elem : ℕ → E) (a b : K) (xs : List ℕ)
      → keys.equal a b ≡ true
      → locate keys elem a xs ≡ locate keys elem b xs
  locate_congr elem a b [] e = refl
  locate_congr elem a b (x ∷ xs) e =
      rw (keys.equal_congr a b (keys.key (elem x)) e, locate_congr elem a b xs e)

  locate-second :
      (next : ℕ → ℕ) (e : ℕ) (elem : ℕ → E) (p : ℕ) (v : E) (q : K) (xs : List ℕ)
      → Chain next e xs
      → Avoids p xs
      → locate keys elem (keys.key v) xs ≡ 0
      → locate keys (update elem p v) q (second p xs)
        ≡ (if keys.equal q (keys.key v) then p else locate keys elem q xs)
  locate-second next e elem p v q [] l a f = rw (==_self p)
  locate-second next e elem p v q (x ∷ xs) l a f =
      let other : (p == x) ≡ false = ground arith in
      rw (other, ==_self p, locate_write keys elem q p v xs a.1)
        (ground (arith, keys.equal_congr q (keys.key v) (keys.key (elem x))))

  module _ {t : Table E} {c : ℕ → List ℕ} (w : Holds keys t c) (p : ℕ) (free : IsFree c p)
      (v : E) where
    abbrev home : ℕ
    home = bucket keys t (keys.key v)

    absent_locate :
        find keys t (keys.key v) ≡ some end → locate keys t.elem (keys.key v) (c home) ≡ 0
    absent_locate absent =
        let found = locate keys t.elem (keys.key v) (c home) in
        let same : some (position home found) ≡ some end =
          sym (find-locate w (keys.key v)) ∙ absent in
        position-end home found (cc same)

    place_joined :
        locate keys t.elem (keys.key v) (c home) ≡ 0
        → ((t.buckets home).elems ≢ 0 → (t.buckets home).hash ≢ keys.hash (keys.key v))
        → (t' : Table E) × (place t p v (keys.hash (keys.key v)) home ≡ some t')
          × Holds keys t' (joined c home p)
          × (t'.elem ≡ update t.elem p v)
          × (t'.max ≡ t.max)
          × (t'.prev ≡ update (update t.prev p 0) p (front (c home)))
    unfolding bucket
    place_joined f other = go (c home) refl f (w.slot home).linked
      where
        go :
            (xs : List ℕ)
            → c home ≡ xs
            → locate keys t.elem (keys.key v) xs ≡ 0
            → Chain t.next (t.buckets home).elems xs
            → (t' : Table E) × (place t p v (keys.hash (keys.key v)) home ≡ some t')
              × Holds keys t' (update c home (second p xs))
              × (t'.elem ≡ update t.elem p v)
              × (t'.max ≡ t.max)
              × (t'.prev ≡ update (update t.prev p 0) p (front xs))
        go [] e f l = place_alone keys w p free v e
        go (x ∷ r) e f l = place_behind keys w p free v x r e f (other (λ z. l.1 (sym l.0 ∙ z)))

    -- A new key whose hash is not the one that its bucket is known by joins the table.
    pub insert_impl-Holds :
        find keys t (keys.key v) ≡ some end
        → ((t.buckets home).elems ≢ 0 → (t.buckets home).hash ≢ keys.hash (keys.key v))
        → (t' : Table E) × (insert_impl keys t p v ≡ some (t', record { p = p; b = home }, true))
          × Holds keys t' (joined c home p)
          × (t'.elem ≡ update t.elem p v)
          × (t'.max ≡ t.max)
          × (t'.prev ≡ update (update t.prev p 0) p (front (c home)))
    unfolding insert_impl bucket Option.bind
    insert_impl-Holds absent other =
        let f = absent_locate absent in
        let (t', run, w', same, sized, back) = place_joined f other in
        let none_equal = duplicate-locate w (keys.key v) home ∙ ap some f in
        (t', rw (none_equal, run), w', same, sized, back)

    find-joined :
        {t' : Table E}
        → Holds keys t' (joined c home p)
        → (t'.elem ≡ update t.elem p v)
        → (t'.max ≡ t.max)
        → locate keys t.elem (keys.key v) (c home) ≡ 0
        → (q : K)
        → find keys t' q
          ≡ (if keys.equal q (keys.key v) then some (record { p = p; b = home }) else find keys t q)
    unfolding bucket
    find-joined {t'} w' same sized f q =
        let n = bucket keys t q in
        let found = find-locate w q in
        let found' = find-locate w' q in
        let z : (p == 0) ≡ false = ground (arith, free.nonzero) in
        rw found' (
          rw (found, sized, same)
            (elim (Bool-cases (home == n)) [
              | inl e ↦
                  let here : home ≡ n = (==_iff home n).0 e in
                  rw
                    (
                      e,
                      locate-second t.next (t.buckets home).elems t.elem p v q (c home)
                          (w.slot home).linked (free.unused home) f,
                    )
                    (elim (Bool-cases (keys.equal q (keys.key v))) [
                      | inl s ↦
                          rw (s, z) (ap (λ (m : ℕ). some (record { p = p; b = m })) (sym here))
                      | inr s ↦
                          rw s (ap (λ (m : ℕ). some (position n (locate keys t.elem q (c m)))) here)
                    ])
              | inr e ↦
                  let differ : keys.equal q (keys.key v) ≡ false =
                    elim (Bool-cases (keys.equal q (keys.key v))) [
                      | inl s ↦
                          let together : n ≡ home =
                            ap (mapkey t.max) (keys.hash_equal q (keys.key v) s) in
                          absurd (ground arith)
                      | inr s ↦ s
                    ] in
                  rw (e, differ, locate_write keys t.elem q p v (c n) (free.unused n))
            ]))

    -- Let a table hold its lists, let the address p be free, and let the key of v be new, with a
    -- hash that its bucket, unless empty, is not known by. Then `insert_impl` succeeds at p, `find`
    -- gives the new node for every key equal to that of v, and what it gave before for all others.
    pub find-insert_impl :
        find keys t (keys.key v) ≡ some end
        → ((t.buckets home).elems ≢ 0 → (t.buckets home).hash ≢ keys.hash (keys.key v))
        → (q : K)
        → (t' : Table E) × (insert_impl keys t p v ≡ some (t', record { p = p; b = home }, true))
          × (find keys t' q ≡ (
              if keys.equal q (keys.key v)
              then some (record { p = p; b = home })
              else find keys t q))
    find-insert_impl absent other q =
        let (t', run, w', same, sized, _) = insert_impl-Holds absent other in
        (t', run, find-joined w' same sized (absent_locate absent) q)

    -- A key that is found is not inserted again: the table stays as it is.
    pub insert_impl_present :
        (at : Position)
        → find keys t (keys.key v) ≡ some at
        → at.p ≢ 0
        → insert_impl keys t p v ≡ some (t, at, false)
    unfolding insert_impl bucket Option.bind
    insert_impl_present at present some_node =
        let found = locate keys t.elem (keys.key v) (c home) in
        let same : some (position home found) ≡ some at =
          sym (find-locate w (keys.key v)) ∙ present in
        let there : position home found ≡ at = cc same in
        let hit : (found == 0) ≡ false = elim (Bool-cases (found == 0)) [
          | inl z ↦
              let none_there : end ≡ at = rw z at there in
              absurd (some_node (sym (ap (λ (o : Position). o.p) none_there)))
          | inr z ↦ z
        ] in
        let at_lem : record { p = found; b = home } ≡ at = rw hit at there in
        rw (duplicate-locate w (keys.key v) home, hit, at_lem)
