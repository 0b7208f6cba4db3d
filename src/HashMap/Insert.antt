-- ===== src/HashMap/Insert.antt =====
-- include/SkBase/HashMap_details.hxx: what `insert_impl` does to a table of pairwise distinct hashes.
use sketch.Base.{
  ℕ, suc, ◌+◌, ◌<◌, ◌≡◌, ◌≢◌, refl, sym, fun_ext, ◌∙◌, ap, arith, inl, inr, Option, none, some,
  true, false, List, [], ◌∷◌, length, ◌==◌, Bool-cases, ◌||◌, if◌then◌else◌, update,
}
use sketch.HashMap.{KeyPolicy, Table, mapkey, above, place, construct, link_next, skip_same}
use sketch.HashMap.Chain.{Chain, Avoids, locate}
use sketch.HashMap.Totals.{total, total-update, first-update, first_keep, first-total, earlier}
use sketch.HashMap.Holds.{Slot, IsFree, Holds, each_bucket}
use sketch.HashMap.Frame.{Slot_link, Slot_fill, Homed-Avoids}
use sketch.HashMap.Place.{alone, behind, linked_next}
use sketch.HashMap.MapKey.{mapkey_lt}

head_earlier :
    (count : ℕ) (head : Option ℕ) (n : ℕ)
    → (head ≡ none → count ≡ 0)
    → (count ≡ 0 → head ≡ none)
    → (if count == 0 || above head n then some n else head) ≡ earlier head n
head_earlier count none n h k = ground (arith, h refl)
head_earlier count (some m) n h k = ground (arith, k)

module _ {ℓ} {K E : Type ℓ} (keys : KeyPolicy K E) where
  -- A bucket is empty by its pointer where it is empty by its list.
  pub empty_alike :
      {t : Table E} {c : ℕ → List ℕ}
      → Holds keys t c
      → (n : ℕ) → ((t.buckets n).elems == 0) ≡ (length (c n) == 0)
  empty_alike {t} {c} w n = go (c n) (w.slot n).linked
    where
      go :
          (xs : List ℕ)
          → Chain t.next (t.buckets n).elems xs
          → ((t.buckets n).elems == 0) ≡ (length xs == 0)
      go [] l = ground arith
      go (x ∷ xs) l = ground arith

  -- The head is missing exactly where the count is 0.
  pub head-count :
      {t : Table E} {c : ℕ → List ℕ}
      → Holds keys t c
      → (t.head ≡ none → t.count ≡ 0) × (t.count ≡ 0 → t.head ≡ none)
  head-count {t} {c} w =
      let parts = first-total t.max 0 t.buckets c (empty_alike w) in
      (
        λ h. elim (Bool-cases (t.count == 0)) [
          | inl z ↦ ground arith
          | inr z ↦ absurd (parts.1 (ground (arith, w.counted)) (sym w.headed ∙ h))
        ],
        λ h. w.headed ∙ parts.0 (sym w.counted ∙ h),
      )

  module _ {t : Table E} {c : ℕ → List ℕ} (w : Holds keys t c) (p : ℕ) (free : IsFree c p)
      (v : E) where
    abbrev pub home : ℕ
    home = mapkey t.max (keys.hash (keys.key v))

    home_lt : home < t.max
    home_lt = (mapkey_lt t.max (keys.hash (keys.key v)) w.positive).0

    counts :
        (xs : List ℕ)
        → length xs ≡ suc (length (c home))
        → t.count + 1 ≡ total t.max 0 (update c home xs)
    counts xs e =
        omega
          (arith, w.counted, total-update t.max 0 home c xs (omega arith) (omega (arith, home_lt)))

    -- Into an empty bucket
    pub place_alone :
        c home ≡ []
        → (t' : Table E) × (place t p v (keys.hash (keys.key v)) home ≡ some t')
          × Holds keys t' (update c home (p ∷ []))
          × (t'.elem ≡ update t.elem p v)
          × (t'.max ≡ t.max)
          × (t'.prev ≡ update (update t.prev p 0) p 0)
    unfolding place construct
    place_alone e =
        let b = t.buckets home in
        let h = keys.hash (keys.key v) in
        let here = w.slot home in
        let z : b.elems ≡ 0 = rw e at here.linked in
        let s : b.size ≡ 0 = here.sized ∙ ap length e in
        let z' : (b.elems == 0) ≡ true = rw z in
        let grown = record b { elems = p; size = b.size + 1; hash = h } in
        (
          record (construct t p v h) {
            buckets = update t.buckets home grown;
            head = if t.count == 0 || above t.head home then some home else t.head;
            count = t.count + 1;
          },
          rw z',
          record {
            slot =
                each_bucket (Slot keys _ _ _ t.max) t.buckets c home grown (p ∷ [])
                  (alone keys t p home v b free.nonzero refl s)
                  (λ m d.
                    Slot_link keys p 0 (free.unused m)
                      (Slot_fill keys p h v (free.unused m) (w.slot m)));
            counted = counts (p ∷ []) (ap suc (sym (ap length e)));
            headed =
                head_earlier t.count t.head home (head-count w).0 (head-count w).1
                ∙ ap (λ (o : Option ℕ). earlier o home) w.headed
                ∙ sym (
                    first-update t.max 0 home t.buckets grown (omega arith) (omega (arith, home_lt))
                      z free.nonzero);
            positive = w.positive;
          },
          refl,
          refl,
          fun_ext (λ q. ground arith),
        )

    -- Behind the first node of a bucket of another hash
    pub place_behind :
        (x : ℕ) (r : List ℕ)
        → c home ≡ x ∷ r
        → locate keys t.elem (keys.key v) (x ∷ r) ≡ 0
        → (t.buckets home).hash ≢ keys.hash (keys.key v)
        → (t' : Table E) × (place t p v (keys.hash (keys.key v)) home ≡ some t')
          × Holds keys t' (update c home (x ∷ p ∷ r))
          × (t'.elem ≡ update t.elem p v)
          × (t'.max ≡ t.max)
          × (t'.prev ≡ update (update t.prev p 0) p x)
    unfolding place construct link_next skip_same
    place_behind x r e f other =
        let b = t.buckets home in
        let h = keys.hash (keys.key v) in
        let here : Slot keys t.next t.hkey t.elem t.max home b (x ∷ r) = rw e at (w.slot home) in
        let avoids : Avoids p (x ∷ r) = rw e at (free.unused home) in
        let grown = record b { size = b.size + 1; dirty = true } in
        let full : (b.elems == 0) ≡ false = ground (arith, here.linked) in
        let apart : (b.hash == h) ≡ false = ground arith in
        let unlike : (p == x) ≡ false = ground arith in
        let skipped : skip_same (suc b.size) (construct t p v h) h b.elems ≡ some x =
          rw (here.linked.0, unlike, here.first, apart) (ground arith) in
        (
          record (link_next (construct t p v h) x p) {
            buckets = update t.buckets home grown;
            count = t.count + 1;
          },
          rw (full, apart, skipped),
          record {
            slot =
                each_bucket
                  (Slot keys (linked_next t p x) (update t.hkey p h) (update t.elem p v) t.max)
                  t.buckets c home grown (x ∷ p ∷ r)
                  (behind keys t p home v b x r free.nonzero avoids refl f here)
                  (λ m d.
                    Slot_link keys x p
                      (Homed-Avoids t.hkey t.max m home x (c m) (w.slot m).homed here.homed.0 d)
                      (Slot_link keys p _ (free.unused m) (
                        Slot_link keys p 0 (free.unused m)
                          (Slot_fill keys p h v (free.unused m) (w.slot m)))));
            counted = counts (x ∷ p ∷ r) (ap suc (sym (ap length e)));
            headed = w.headed ∙ sym (first_keep t.max 0 home t.buckets grown refl);
            positive = w.positive;
          },
          refl,
          refl,
          refl,
        )
