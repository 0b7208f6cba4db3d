-- ===== src/Heap/Blocks.antt =====
-- include/SkBase/Heap.Debug.hxx: the list of blocks, and the bytes in them.
use sketch.Base.{
  ℕ, ◌+◌, ◌≡◌, ◌≢◌, refl, sym, arith, false, List, [], ◌∷◌, ◌++◌, length, ◌==◌, ==_iff, Bool-cases,
  inl, inr, ◌⊎◌, update,
}
use sketch.Heap.{Header, unlist}

-- The address stands in the list.
abbrev pub Listed : ℕ → List ℕ → Type 0
Listed h [] = ⊥
Listed h (x ∷ xs) = (h ≡ x) ⊎ Listed h xs

abbrev pub Unlisted : ℕ → List ℕ → Type 0
Unlisted h [] = Unit
Unlisted h (x ∷ xs) = (h ≢ x) × Unlisted h xs

abbrev pub Apart : List ℕ → Type 0
Apart [] = Unit
Apart (x ∷ xs) = Unlisted x xs × Apart xs

abbrev pub bytes_in : (ℕ → Header) → List ℕ → ℕ
bytes_in header [] = 0
bytes_in header (h ∷ hs) = (header h).size + bytes_in header hs

-- What the lists keep
pub Unlisted-append : (x h : ℕ) (l : List ℕ) → Unlisted x l → x ≢ h → Unlisted x (l ++ h ∷ [])
Unlisted-append x h [] u n = (n, tt)
Unlisted-append x h (y ∷ l) u n = (u.0, Unlisted-append x h l u.1 n)

pub Apart-append : (h : ℕ) (l : List ℕ) → Unlisted h l → Apart l → Apart (l ++ h ∷ [])
Apart-append h [] u a = (tt, tt)
Apart-append h (x ∷ l) u a =
    (Unlisted-append x h l a.0 (λ e. u.0 (sym e)), Apart-append h l u.1 a.1)

pub Unlisted-unlist : (x h : ℕ) (l : List ℕ) → Unlisted x l → Unlisted x (unlist h l)
unfolding unlist
Unlisted-unlist x h [] u = tt
Unlisted-unlist x h (y ∷ l) u = elim (Bool-cases (y == h)) [
  | inl e ↦ rw e u.1
  | inr e ↦ rw e (u.0, Unlisted-unlist x h l u.1)
]

pub Apart-unlist : (h : ℕ) (l : List ℕ) → Apart l → Apart (unlist h l)
unfolding unlist
Apart-unlist h [] a = tt
Apart-unlist h (y ∷ l) a = elim (Bool-cases (y == h)) [
  | inl e ↦ rw e a.1
  | inr e ↦ rw e (Unlisted-unlist y h l a.0, Apart-unlist h l a.1)
]

pub length-unlist : (h : ℕ) (l : List ℕ) → Listed h l → length (unlist h l) + 1 ≡ length l
unfolding unlist
length-unlist h [] m = absurd m
length-unlist h (y ∷ l) m = elim (Bool-cases (y == h)) [
  | inl e ↦ rw e (omega arith)
  | inr e ↦
      rw e (elim m [ inl s ↦ absurd (ground arith) | inr m' ↦ omega (arith, length-unlist h l m') ])
]

pub bytes_in-append :
    (header : ℕ → Header) (h : ℕ) (l : List ℕ)
    → bytes_in header (l ++ h ∷ []) ≡ bytes_in header l + (header h).size
bytes_in-append header h [] = omega arith
bytes_in-append header h (x ∷ l) = omega (arith, bytes_in-append header h l)

pub bytes_in-update :
    (header : ℕ → Header) (h : ℕ) (x : Header) (l : List ℕ)
    → Unlisted h l
    → bytes_in (update header h x) l ≡ bytes_in header l
bytes_in-update header h x [] u = refl
bytes_in-update header h x (y ∷ l) u =
    let e : (h == y) ≡ false = ground arith in rw (e, bytes_in-update header h x l u.1)

-- Another header with the size of the old one changes no sum.
pub bytes_in-resized :
    (header : ℕ → Header) (h : ℕ) (x : Header) (l : List ℕ)
    → x.size ≡ (header h).size
    → bytes_in (update header h x) l ≡ bytes_in header l
bytes_in-resized header h x [] e = refl
bytes_in-resized header h x (y ∷ l) e = elim (Bool-cases (h == y)) [
  | inl s ↦ let same : h ≡ y = (==_iff h y).0 s in rw (s, bytes_in-resized header h x l e, e, same)
  | inr s ↦ rw (s, bytes_in-resized header h x l e)
]

pub bytes_in-unlist :
    (header : ℕ → Header) (h : ℕ) (l : List ℕ)
    → Listed h l
    → bytes_in header (unlist h l) + (header h).size ≡ bytes_in header l
unfolding unlist
bytes_in-unlist header h [] m = absurd m
bytes_in-unlist header h (y ∷ l) m = elim (Bool-cases (y == h)) [
  | inl e ↦ let same : y ≡ h = (==_iff y h).0 e in rw (e, same) (omega arith)
  | inr e ↦ rw e (elim m [
    | inl s ↦ absurd (ground arith)
    | inr m' ↦ omega (arith, bytes_in-unlist header h l m')
  ])
]
