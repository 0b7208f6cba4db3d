-- ===== src/HashMap/Holds.antt =====
-- include/SkBase/HashMap_details.hxx: which lists of nodes a table holds, bucket by bucket.
use sketch.Base.{
  ℕ, ◌<◌, ◌≡◌, ◌≢◌, arith, inl, inr, false, List, [], ◌∷◌, length, ◌==◌, ==_iff, Bool-cases, update,
}
use sketch.HashMap.{KeyPolicy, Bucket, Table, mapkey}
use sketch.HashMap.Query.{first_nonempty}
use sketch.HashMap.Totals.{total}
use sketch.HashMap.Chain.{Chain, Avoids, AllHash, Hashed, locate}

-- The bucket's recorded hash is that of its first node.
abbrev pub FirstHash : (ℕ → ℕ) → ℕ → List ℕ → Type 0
FirstHash hkey h [] = Unit
FirstHash hkey h (x ∷ xs) = hkey x ≡ h

-- Every node stands in the bucket n that its hash maps to.
abbrev pub Homed : (ℕ → ℕ) → ℕ → ℕ → List ℕ → Type 0
Homed hkey max n [] = Unit
Homed hkey max n (x ∷ xs) = (mapkey max (hkey x) ≡ n) × Homed hkey max n xs

abbrev pub Apart : List ℕ → Type 0
Apart [] = Unit
Apart (x ∷ xs) = Avoids x xs × Apart xs

pub record IsFree (c : ℕ → List ℕ) (p : ℕ) : Type 0 where
  pub nonzero : p ≢ 0
  pub unused : (n : ℕ) → Avoids p (c n)

-- A statement on every bucket, after one bucket changed
pub each_bucket :
    (P : ℕ → Bucket → List ℕ → Type 0) (bs : ℕ → Bucket) (c : ℕ → List ℕ) (n : ℕ) (b : Bucket)
    (xs : List ℕ)
    → P n b xs
    → ((m : ℕ) → m ≢ n → P m (bs m) (c m))
    → (m : ℕ) → P m (update bs n b m) (update c n xs m)
each_bucket P bs c n b xs here there m = elim (Bool-cases (n == m)) [
  | inl e ↦ rw e (let same : n ≡ m = (==_iff n m).0 e in rw same at here)
  | inr e ↦ rw e (there m (ground arith))
]

module _ {ℓ} {K E : Type ℓ} (keys : KeyPolicy K E) where
  -- No two nodes have equal keys.
  abbrev pub Distinct : (ℕ → E) → List ℕ → Type 0
  Distinct elem [] = Unit
  Distinct elem (x ∷ xs) = (locate keys elem (keys.key (elem x)) xs ≡ 0) × Distinct elem xs

  -- The bucket b, of index n, holds the list xs.
  pub record Slot (next hkey : ℕ → ℕ) (elem : ℕ → E) (max n : ℕ) (b : Bucket) (xs : List ℕ)
      : Type 0 where
    pub linked : Chain next b.elems xs
    pub sized : b.size ≡ length xs
    pub hashed : Hashed keys elem hkey xs
    pub homed : Homed hkey max n xs
    pub pure : b.dirty ≡ false → AllHash hkey b.hash xs
    pub first : FirstHash hkey b.hash xs
    pub apart : Apart xs
    pub distinct : Distinct elem xs

  -- The table t holds the lists c.
  pub record Holds (t : Table E) (c : ℕ → List ℕ) : Type 0 where
    pub slot : (n : ℕ) → Slot t.next t.hkey t.elem t.max n (t.buckets n) (c n)
    pub counted : t.count ≡ total t.max 0 c
    pub headed : t.head ≡ first_nonempty t.max 0 t.buckets
    pub positive : 0 < t.max
