-- ===== src/HashMap/Frame.antt =====
-- include/SkBase/HashMap_details.hxx: what a bucket holds is kept by writes to other nodes.
use sketch.Base.{ℕ, ◌≡◌, ◌≢◌, refl, ap, arith, false, List, [], ◌∷◌, ◌==◌, update}
use sketch.HashMap.{KeyPolicy, Bucket, mapkey}
use sketch.HashMap.Chain.{Avoids, Hashed, locate, Chain-write, AllHash-write}
use sketch.HashMap.Holds.{FirstHash, Homed, Distinct, Slot}

pub Homed-write :
    (hkey : ℕ → ℕ) (max n q v : ℕ) (xs : List ℕ)
    → Avoids q xs
    → Homed hkey max n xs
    → Homed (update hkey q v) max n xs
Homed-write hkey max n q v [] a c = tt
Homed-write hkey max n q v (x ∷ xs) a c =
    let e : update hkey q v x ≡ hkey x = ground arith in
    (rw e c.0, Homed-write hkey max n q v xs a.1 c.1)

FirstHash-write :
    (hkey : ℕ → ℕ) (h q v : ℕ) (xs : List ℕ)
    → Avoids q xs
    → FirstHash hkey h xs
    → FirstHash (update hkey q v) h xs
FirstHash-write hkey h q v [] a c = tt
FirstHash-write hkey h q v (x ∷ xs) a c = ground arith

-- Nodes of different home buckets are different.
pub Homed-Avoids :
    (hkey : ℕ → ℕ) (max m n x : ℕ) (xs : List ℕ)
    → Homed hkey max m xs
    → mapkey max (hkey x) ≡ n
    → m ≢ n
    → Avoids x xs
Homed-Avoids hkey max m n x [] s e d = tt
Homed-Avoids hkey max m n x (y ∷ ys) s e d = (
  λ same. d (cc (ap (λ (z : ℕ). mapkey max (hkey z)) same)),
  Homed-Avoids hkey max m n x ys s.1 e d,
)

module _ {ℓ} {K E : Type ℓ} (keys : KeyPolicy K E) where
  pub locate_write :
      (elem : ℕ → E) (k : K) (q : ℕ) (v : E) (xs : List ℕ)
      → Avoids q xs
      → locate keys (update elem q v) k xs ≡ locate keys elem k xs
  locate_write elem k q v [] a = refl
  locate_write elem k q v (x ∷ xs) a =
      let other : (q == x) ≡ false = ground arith in rw (other, locate_write elem k q v xs a.1)

  pub Hashed-write :
      (elem : ℕ → E) (hkey : ℕ → ℕ) (q h : ℕ) (v : E) (xs : List ℕ)
      → Avoids q xs
      → Hashed keys elem hkey xs
      → Hashed keys (update elem q v) (update hkey q h) xs
  Hashed-write elem hkey q h v [] a s = tt
  Hashed-write elem hkey q h v (x ∷ xs) a s =
      let other : (q == x) ≡ false = ground arith in
      (rw other s.0, Hashed-write elem hkey q h v xs a.1 s.1)

  Distinct_write :
      (elem : ℕ → E) (q : ℕ) (v : E) (xs : List ℕ)
      → Avoids q xs
      → Distinct keys elem xs
      → Distinct keys (update elem q v) xs
  Distinct_write elem q v [] a s = tt
  Distinct_write elem q v (x ∷ xs) a s =
      let other : (q == x) ≡ false = ground arith in
      (
        rw other (rw (locate_write elem (keys.key (elem x)) q v xs a.1) s.0),
        Distinct_write elem q v xs a.1 s.1,
      )

  module _ {next hkey : ℕ → ℕ} {elem : ℕ → E} {max n : ℕ} {b : Bucket} {xs : List ℕ} where
    -- A link of a node that the bucket does not hold may change,
    pub Slot_link :
        (q w : ℕ)
        → Avoids q xs
        → Slot keys next hkey elem max n b xs
        → Slot keys (update next q w) hkey elem max n b xs
    Slot_link q w a s = record {
      linked = Chain-write next q w b.elems xs a s.linked;
      sized = s.sized;
      hashed = s.hashed;
      homed = s.homed;
      pure = s.pure;
      first = s.first;
      apart = s.apart;
      distinct = s.distinct;
    }

    -- and so may its hash and its element.
    pub Slot_fill :
        (q h : ℕ) (v : E)
        → Avoids q xs
        → Slot keys next hkey elem max n b xs
        → Slot keys next (update hkey q h) (update elem q v) max n b xs
    Slot_fill q h v a s = record {
      linked = s.linked;
      sized = s.sized;
      hashed = Hashed-write elem hkey q h v xs a s.hashed;
      homed = Homed-write hkey max n q h xs a s.homed;
      pure = λ d. AllHash-write hkey q h b.hash xs a (s.pure d);
      first = FirstHash-write hkey b.hash q h xs a s.first;
      apart = s.apart;
      distinct = Distinct_write elem q v xs a s.distinct;
    }
