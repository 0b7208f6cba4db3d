-- ===== src/CommandLine/Split.antt =====
-- src/SkUser/CommandLine.cxx: `_split` ends, and takes apart what was joined by spaces.
use sketch.Base.{
  ℕ, zero, suc, ◌-◌, ◌≤◌, ◌<◌, ◌≡◌, refl, Bool, true, false, some, List, [], ◌∷◌, ◌++◌, length,
  ◌==◌, arith, length-append,
}
use sketch.CommandLine.{Text, quote_mark, skip_spaces, toggle, stops, scan, keep, split_loop, split}

module _ (space : ℕ → Bool) where
  length-skip_spaces : (s : Text) → length (skip_spaces space s) ≤ length s
  unfolding skip_spaces
  length-skip_spaces [] = omega arith
  length-skip_spaces (c ∷ cs) = ground (arith, length-skip_spaces cs)

  length-scan : (q : Bool) (s : Text) → length (scan space q s).1 ≤ length s - 1
  unfolding scan
  length-scan q [] = omega arith
  length-scan q (c ∷ cs) = ground (arith, length-scan (toggle space q c) cs)

  -- Each round of the outer loop leaves less of the string.
  split_loop_total :
      (fuel : ℕ) (s : Text)
      → length s < fuel
      → (items : List Text) × (split_loop space fuel s ≡ some items)
  unfolding split_loop
  split_loop_total zero s h = absurd (omega arith)
  split_loop_total (suc fuel) [] h = ([], refl)
  split_loop_total (suc fuel) (c ∷ cs) h =
      let found = scan space false (skip_spaces space (c ∷ cs)) in
      let (items, e) = split_loop_total fuel found.1 (
        omega
          (arith, length-scan false (skip_spaces space (c ∷ cs)), length-skip_spaces (c ∷ cs))) in
      (keep space found.0 items, rw e)

  -- `_split` always ends: the fuel that `split` gives is enough for every string.
  pub split_total : (s : Text) → (items : List Text) × (split space s ≡ some items)
  unfolding split
  split_total s = split_loop_total (suc (length s)) s (omega arith)

  -- From the state `quotes` on, no unit of the item ends it, and the quotes are closed at its end.
  abbrev pub Closed : Bool → Text → Type 0
  Closed quotes [] = quotes ≡ false
  Closed quotes (c ∷ cs) = (stops space quotes c ≡ false) × Closed (toggle space quotes c) cs

  -- An item as a user writes it: it does not begin with a space, and spaces stand in quotes.
  abbrev pub IsItem : Text → Type 0
  IsItem [] = ⊥
  IsItem (c ∷ cs) = (space c ≡ false) × Closed false (c ∷ cs)

  scan-Closed :
      (q : Bool) (t : Text) (sp : ℕ) (rest : Text)
      → Closed q t
      → space sp ≡ true
      → (sp == quote_mark) ≡ false
      → scan space q (t ++ sp ∷ rest) ≡ (t, rest)
  unfolding scan
  scan-Closed q [] sp rest h s n = rw (h, n, s)
  scan-Closed q (c ∷ cs) sp rest h s n = rw (h.0, scan-Closed (toggle space q c) cs sp rest h.1 s n)

  scan-last : (q : Bool) (t : Text) → Closed q t → scan space q t ≡ (t, [])
  unfolding scan
  scan-last q [] h = refl
  scan-last q (c ∷ cs) h = rw (h.0, scan-last (toggle space q c) cs h.1)

  abbrev pub AreItems : List Text → Type 0
  AreItems [] = Unit
  AreItems (t ∷ ts) = IsItem t × AreItems ts

  module _ (sp : ℕ) (is_space : space sp ≡ true) (no_quote : (sp == quote_mark) ≡ false) where
    pub join : List Text → Text
    join [] = []
    join (t ∷ []) = t
    join (t ∷ u ∷ ts) = t ++ sp ∷ join (u ∷ ts)

    split_loop-join :
        (ts : List Text) (fuel : ℕ)
        → AreItems ts
        → length (join ts) < fuel
        → split_loop space fuel (join ts) ≡ some ts
    unfolding split_loop join skip_spaces keep
    split_loop-join ts zero h f = absurd (omega arith)
    split_loop-join [] (suc fuel) h f = refl
    split_loop-join ([] ∷ ts) (suc fuel) h f = absurd h.0
    split_loop-join ((c ∷ cs) ∷ []) (suc (suc fuel)) h f =
        rw (h.0.0, scan-last false (c ∷ cs) h.0.1)
    split_loop-join ((c ∷ cs) ∷ []) (suc zero) h f = absurd (omega arith)
    split_loop-join ((c ∷ cs) ∷ u ∷ ts) (suc fuel) h f =
        rw (h.0.0, scan-Closed false (c ∷ cs) sp (join (u ∷ ts)) h.0.1 is_space no_quote)
          (rw (
            split_loop-join (u ∷ ts) fuel h.1
              (omega (arith, length-append cs (sp ∷ join (u ∷ ts))))))

    -- Items that are joined by a space character other than quotes come back from `_split` one by
    -- one, in order, if each begins with no space, closes its quotes and has spaces only in them.
    pub split-join : (ts : List Text) → AreItems ts → split space (join ts) ≡ some ts
    unfolding split
    split-join ts h = split_loop-join ts (suc (length (join ts))) h (omega arith)
