-- ===== src/Strings/Text/Compare.antt =====
-- include/SkBase/String.hxx: when two strings compare equal.
use sketch.Base.{
  ℕ, ◌+◌, ◌-◌, ◌%◌, ◌^◌, ◌<◌, ◌≡◌, ◌≢◌, refl, sym, ◌∙◌, arith, List, [], ◌∷◌, true, false, ◌==◌,
  length, Bool-cases, inl, inr,
}
use sketch.Base.Int.{pos, ◌-ℤ◌}
use sketch.Strings.Text.{c_str, wcscmp, compare, int_of}

wcscmp_equal : (xs ys : List ℕ) → wcscmp xs ys ≡ pos 0 → c_str xs ≡ c_str ys
unfolding wcscmp c_str
wcscmp_equal [] [] e = refl
wcscmp_equal [] (y ∷ ys) e = ground arith
wcscmp_equal (x ∷ xs) [] e = ground arith
wcscmp_equal (x ∷ xs) (y ∷ ys) e = let rest = wcscmp_equal xs ys in ground arith

equal-wcscmp : (xs ys : List ℕ) → c_str xs ≡ c_str ys → wcscmp xs ys ≡ pos 0
unfolding wcscmp c_str
equal-wcscmp [] [] e = refl
equal-wcscmp [] (y ∷ ys) e = ground arith
equal-wcscmp (x ∷ xs) [] e = ground arith
equal-wcscmp (x ∷ xs) (y ∷ ys) e = let rest = equal-wcscmp xs ys in ground arith

int_of_zero : (r : ℕ) → int_of r ≡ pos 0 → r % 2 ^ 32 ≡ 0
unfolding ◌-ℤ◌
int_of_zero r e = ground arith

compare_same : (a b : List ℕ) → length a ≡ length b → compare a b ≡ wcscmp a b
unfolding compare
compare_same a b e =
    let z : ((length a + 2 ^ 64 - length b) % 2 ^ 64 == 0) ≡ true = ground arith in rw z refl

compare_apart :
    (a b : List ℕ)
    → length a < 2 ^ 31
    → length b < 2 ^ 31
    → length a ≢ length b
    → compare a b ≢ pos 0
unfolding compare
compare_apart a b l m z e =
    let f : ((length a + 2 ^ 64 - length b) % 2 ^ 64 == 0) ≡ false = ground arith in
    let low = int_of_zero _ (rw f at e) in omega arith

-- For two texts shorter than 2 ^ 31 that do not share their data, `compare` is 0 exactly when they
-- have one length and the same units before the first '\0': what stands behind a '\0' inside the
-- texts is not compared
pub compare_zero :
    (a b : List ℕ)
    → length a < 2 ^ 31
    → length b < 2 ^ 31
    → (compare a b ≡ pos 0 → (length a ≡ length b) × (c_str a ≡ c_str b))
      × ((length a ≡ length b) × (c_str a ≡ c_str b) → compare a b ≡ pos 0)
compare_zero a b l m = (
  (λ e. elim (Bool-cases (length a == length b)) [
    | inl t ↦
        let same : length a ≡ length b = ground arith in
        (same, wcscmp_equal a b (sym (compare_same a b same) ∙ e))
    | inr f ↦ absurd (compare_apart a b l m (ground arith) e)
  ]),
  (λ p. compare_same a b p.0 ∙ equal-wcscmp a b p.1),
)
