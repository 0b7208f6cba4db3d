-- ===== src/HashMap/Clear.antt =====
-- include/SkBase/HashMap_details.hxx: `clear()`, which erases from `begin()` until nothing is left.
use mathlib.Core.Option
use sketch.Base.{
  ℕ, zero, suc, ◌-◌, ◌<◌, ◌≡◌, ◌≢◌, refl, sym, ◌∙◌, ap, arith, inl, inr, none, some, true, false,
  List, [], ◌∷◌, length, ◌==◌, ==_self, Option-cases,
}
use sketch.HashMap.{KeyPolicy, Table, Position, end}
use sketch.HashMap.Query.{begin}
use sketch.HashMap.Erase.{erase, erase_range, clear}
use sketch.HashMap.Chain.{Chain}
use sketch.HashMap.Totals.{first_bound}
use sketch.HashMap.Insert.{head-count}
use sketch.HashMap.Shrink.{Tidy, Stands}
use sketch.HashMap.Remove.{erase_only, erase_first}

module _ {ℓ} {K E : Type ℓ} (keys : KeyPolicy K E) where
  -- One round: the first node of the first bucket leaves.
  erase_begin :
      {t : Table E} {c : ℕ → List ℕ}
      → Tidy keys t c
      → (m : ℕ) → t.head ≡ some m
      → (t' : Table E) × (c' : ℕ → List ℕ) × (at : Position) × (erase t
            (record { p = (t.buckets m).elems; b = m })
          ≡ some (t', at))
        × Tidy keys t' c'
        × (t'.count ≡ t.count - 1)
        × Stands t'.buckets t'.head 0 at
  erase_begin {t} {c} w m e = go (c m) refl (w.holds.slot m).linked
    where
      go :
          (xs : List ℕ)
          → c m ≡ xs
          → Chain t.next (t.buckets m).elems xs
          → (t' : Table E) × (c' : ℕ → List ℕ) × (at : Position) × (erase t
                (record { p = (t.buckets m).elems; b = m })
              ≡ some (t', at))
            × Tidy keys t' c'
            × (t'.count ≡ t.count - 1)
            × Stands t'.buckets t'.head 0 at
      go [] f l = absurd ((first_bound t.max 0 t.buckets m (sym w.holds.headed ∙ e)).2 l)
      go (a ∷ []) f l =
          let (t', at, run, w', _, _, less, stands) = erase_only keys w m a f in
          (t', _, at, rw l.0 run, w', less, stands (rw e (==_self m)))
      go (a ∷ y ∷ []) f l =
          let (t', at, run, w', _, _, less, stands) = erase_first keys w m a y f in
          (t', _, at, rw l.0 run, w', less, stands (rw e (==_self m)))
      go (a ∷ y ∷ z ∷ xs) f l = absurd (let short = w.short m in omega (arith, ap length f))

  count-ne-zero :
      {t : Table E} {c : ℕ → List ℕ} → Tidy keys t c → (m : ℕ) → t.head ≡ some m → t.count ≢ 0
  count-ne-zero w m f z = let wrong : none ≡ some m = sym ((head-count keys w.holds).1 z) ∙ f in cc

  -- From the position of the first node, or past the end, all nodes are erased.
  erase_range-Tidy :
      (fuel : ℕ) {t : Table E} {c : ℕ → List ℕ}
      → Tidy keys t c
      → t.count < fuel
      → (at : Position) → Stands t.buckets t.head 0 at
      → (t' : Table E) × (c' : ℕ → List ℕ) × (erase_range fuel t at end ≡ some (t', end))
        × Tidy keys t' c'
        × (t'.count ≡ 0)
  unfolding erase_range Option.bind
  erase_range-Tidy zero w h at s = absurd (omega arith)
  erase_range-Tidy (suc fuel) {t} {c} w h at s = elim (Option-cases t.head) [
    | inl f ↦ let over : at.p ≡ 0 = rw f at s in (t, c, rw over, w, (head-count keys w.holds).0 f)
    | inr (m, f) ↦
        let here : at ≡ record { p = (t.buckets m).elems; b = m } = rw f at s in
        let full = (first_bound t.max 0 t.buckets m (sym w.holds.headed ∙ f)).2 in
        let (t1, c1, at1, run, w1, less, s1) = erase_begin w m f in
        let counted : t.count ≢ 0 = count-ne-zero w m f in
        let (t', c', rest, w', none_left) = erase_range-Tidy fuel w1 (omega arith) at1 s1 in
        let some_node : ((t.buckets m).elems == 0) ≡ false = ground arith in
        (t', c', rw here (rw (some_node, run, rest)), w', none_left)
  ]

  begin-Stands :
      {t : Table E} {c : ℕ → List ℕ}
      → Tidy keys t c
      → (first : Position) × (begin t ≡ first) × Stands t.buckets t.head 0 first
  unfolding begin
  begin-Stands {t} w = elim (Option-cases t.head) [
    | inl f ↦
        let z : (t.count == 0) ≡ true = rw ((head-count keys w.holds).0 f) in (end, rw z, rw f)
    | inr (m, f) ↦
        let z : (t.count == 0) ≡ false = ground (arith, count-ne-zero w m f) in
        (record { p = (t.buckets m).elems; b = m }, rw (z, f), rw f)
  ]

  -- Let a table hold its lists, with links back and no bucket of three nodes. `clear` ends without
  -- a fault, leaves such a table, and counts nothing.
  pub clear-Tidy :
      {t : Table E} {c : ℕ → List ℕ}
      → Tidy keys t c
      → (t' : Table E) × (c' : ℕ → List ℕ) × (clear t ≡ some t') × Tidy keys t' c' × (t'.count ≡ 0)
  unfolding clear Option.bind
  clear-Tidy {t} w =
      let (first, started, stands) = begin-Stands w in
      let (t', c', run, w', none_left) =
        erase_range-Tidy (suc t.count) w (omega arith) first stands in
      (t', c', rw (started, run), w', none_left)
