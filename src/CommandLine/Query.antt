-- ===== src/CommandLine/Query.antt =====
-- include/SkUser/CommandLine.hxx: the queries of a command line agree with one another.
use mathlib.Core.List.{head?}
use sketch.Base.{
  ◌≡◌, refl, ap, ap₂, true, not, ◌&&◌, some, List, [], ◌∷◌, ◌++◌, arith, Bool-cases, inl, inr,
}
use sketch.CommandLine.{Text, Item, is_empty, text_eq, present, values, single_value}

pub text_eq-eq : (a b : Text) → text_eq a b ≡ true → a ≡ b
text_eq-eq [] [] h = refl
text_eq-eq [] (d ∷ b) h = cc
text_eq-eq (c ∷ a) [] h = cc
text_eq-eq (c ∷ a) (d ∷ b) h =
    let e : c ≡ d = ground arith in
    let t : text_eq a b ≡ true = ground arith in ap₂ ◌∷◌ e (text_eq-eq a b t)

-- `singleValue` gives the first of the `values`, and fails if there are none.
pub single_value-values :
    (items : List Item) (name : Text) → single_value items name ≡ head? (values items name)
unfolding single_value values
single_value-values [] name = refl
single_value-values (i ∷ items) name =
    elim (Bool-cases (text_eq i.name name && not (is_empty i.value))) [
      | inl e ↦ rw e
      | inr e ↦ rw e (single_value-values items name)
    ]

-- A name that has a value is present.
pub present-single_value :
    (items : List Item) (name v : Text)
    → single_value items name ≡ some v
    → present items name ≡ true
unfolding single_value present
present-single_value [] name v h = cc
present-single_value (i ∷ items) name v h = ground (arith, present-single_value items name v)

-- The values of the items of two command lines are those of the first, then those of the second.
pub values-append :
    (xs ys : List Item) (name : Text) → values (xs ++ ys) name ≡ values xs name ++ values ys name
unfolding values
values-append [] ys name = refl
values-append (i ∷ xs) ys name = elim (Bool-cases (text_eq i.name name && not (is_empty i.value))) [
  | inl e ↦ rw e (ap (λ l. i.value ∷ l) (values-append xs ys name))
  | inr e ↦ rw e (values-append xs ys name)
]
