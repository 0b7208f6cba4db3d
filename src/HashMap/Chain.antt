-- ===== src/HashMap/Chain.antt =====
-- include/SkBase/HashMap_details.hxx: one bucket's nodes as a list of addresses, and its loops.
use sketch.Base.{
  ℕ, zero, suc, ◌<◌, ◌≡◌, ◌≢◌, refl, arith, some, List, [], ◌∷◌, length, if◌then◌else◌, update,
}
use sketch.HashMap.{KeyPolicy, Table, scan}
use sketch.HashMap.Query.{find_from}

-- The nodes that the links `next` lead through from p on, down to the null pointer
abbrev pub Chain : (ℕ → ℕ) → ℕ → List ℕ → Type 0
Chain next p [] = p ≡ 0
Chain next p (x ∷ xs) = (p ≡ x) × (x ≢ 0) × Chain next (next x) xs

-- The address q is none of the list's.
abbrev pub Avoids : ℕ → List ℕ → Type 0
Avoids q [] = Unit
Avoids q (x ∷ xs) = (q ≢ x) × Avoids q xs

-- Every link back leads to the node before, and the first one to q.
abbrev pub Back : (ℕ → ℕ) → ℕ → List ℕ → Type 0
Back prev q [] = Unit
Back prev q (x ∷ xs) = (prev x ≡ q) × Back prev x xs

abbrev pub AllHash : (ℕ → ℕ) → ℕ → List ℕ → Type 0
AllHash hkey h [] = Unit
AllHash hkey h (x ∷ xs) = (hkey x ≡ h) × AllHash hkey h xs

pub Chain-write :
    (next : ℕ → ℕ) (q v p : ℕ) (xs : List ℕ)
    → Avoids q xs
    → Chain next p xs
    → Chain (update next q v) p xs
Chain-write next q v p [] a c = c
Chain-write next q v p (x ∷ xs) a c =
    let e : update next q v x ≡ next x = ground arith in
    (c.0, c.1, rw e (Chain-write next q v (next x) xs a.1 c.2))

pub Back_write :
    (prev : ℕ → ℕ) (q v p : ℕ) (xs : List ℕ)
    → Avoids q xs
    → Back prev p xs
    → Back (update prev q v) p xs
Back_write prev q v p [] a c = tt
Back_write prev q v p (x ∷ xs) a c =
    let e : update prev q v x ≡ prev x = ground arith in
    (rw e c.0, Back_write prev q v x xs a.1 c.1)

pub AllHash-write :
    (hkey : ℕ → ℕ) (q v h : ℕ) (xs : List ℕ)
    → Avoids q xs
    → AllHash hkey h xs
    → AllHash (update hkey q v) h xs
AllHash-write hkey q v h [] a c = tt
AllHash-write hkey q v h (x ∷ xs) a c =
    let e : update hkey q v x ≡ hkey x = ground arith in
    (rw e c.0, AllHash-write hkey q v h xs a.1 c.1)

-- The new node of another hash stands behind the first.
abbrev pub second : ℕ → List ℕ → List ℕ
second p [] = p ∷ []
second p (x ∷ xs) = x ∷ p ∷ xs

-- The first node, or 0
abbrev pub front : List ℕ → ℕ
front [] = 0
front (x ∷ xs) = x

module _ {ℓ} {K E : Type ℓ} (keys : KeyPolicy K E) where
  -- The first node of the list that has the key k, or 0
  abbrev pub locate : (ℕ → E) → K → List ℕ → ℕ
  locate elem k [] = 0
  locate elem k (x ∷ xs) = if keys.equal k (keys.key (elem x)) then x else locate elem k xs

  -- Every node keeps the hash of its key.
  abbrev pub Hashed : (ℕ → E) → (ℕ → ℕ) → List ℕ → Type 0
  Hashed elem hkey [] = Unit
  Hashed elem hkey (x ∷ xs) = (hkey x ≡ keys.hash (keys.key (elem x))) × Hashed elem hkey xs

  pub find_from-locate :
      (t : Table E) (k : K) (fuel p : ℕ) (xs : List ℕ)
      → length xs < fuel
      → Chain t.next p xs
      → find_from keys fuel t k p ≡ some (locate t.elem k xs)
  unfolding find_from
  find_from-locate t k zero p xs h c = absurd (omega arith)
  find_from-locate t k (suc fuel) p [] h c = rw c
  find_from-locate t k (suc fuel) p (x ∷ xs) h c =
      ground (arith, find_from-locate t k fuel (t.next x) xs)

  -- With the hash of k, the loop of `insert_impl` meets the node that `find` meets.
  pub scan-locate :
      (t : Table E) (k : K) (fuel p : ℕ) (xs : List ℕ)
      → length xs < fuel
      → Chain t.next p xs
      → Hashed t.elem t.hkey xs
      → scan keys fuel t (keys.hash k) k p ≡ some (locate t.elem k xs)
  unfolding scan
  scan-locate t k zero p xs h c s = absurd (omega arith)
  scan-locate t k (suc fuel) p [] h c s = rw c
  scan-locate t k (suc fuel) p (x ∷ xs) h c s = ground (
    arith,
    scan-locate t k fuel (t.next x) xs,
    keys.equal_sym k (keys.key (t.elem x)),
    keys.hash_equal k (keys.key (t.elem x)),
  )

  -- No node of another hash has the key.
  pub locate-AllHash :
      (elem : ℕ → E) (hkey : ℕ → ℕ) (k : K) (h : ℕ) (xs : List ℕ)
      → Hashed elem hkey xs
      → AllHash hkey h xs
      → h ≢ keys.hash k
      → locate elem k xs ≡ 0
  locate-AllHash elem hkey k h [] s a d = refl
  locate-AllHash elem hkey k h (x ∷ xs) s a d =
      ground
        (arith, locate-AllHash elem hkey k h xs s.1 a.1 d, keys.hash_equal k (keys.key (elem x)))
