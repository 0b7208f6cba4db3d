-- ===== src/CommandLine/Tests.antt =====
-- src/SkUser/CommandLine.cxx: command lines as in tests/SkUser_test/CommandLine_test.cpp.
use Prim.Native.Char.{code}
use Prim.Native.String.{String}
use mathlib.Core.List.{head?}
use sketch.Base.{ℕ, ◌≡◌, ◌≢◌, refl, Bool, true, false, some, List, [], ◌∷◌, ◌==◌, arith, inr}
use sketch.CommandLine.{
  keep, split_loop, add_items, add_value, take_name, take_value, Text, Item, unquote, split, scan,
  skip_spaces, flag, add_item, parse, present, values, single_value,
}
use sketch.CommandLine.Split.{join, split_total, split-join}
use sketch.CommandLine.Flags.{unquote-quoted, flag_forms, flag_quoted, add_item_detached}
use sketch.CommandLine.Query.{single_value-values, present-single_value}

abbrev codes : String → Text
codes String.[] = []
codes (String.◌∷◌ c s) = code c ∷ codes s

abbrev space : ℕ → Bool
space c = c == b' '

abbrev items : List Item
items =
    record { name = codes "D"; value = codes "90" }
    ∷ record { name = codes "path"; value = codes "a b" }
    ∷ record { name = []; value = codes "x" }
    ∷ []

parse_runs :
    parse space (codes " /D:90 --path \"a b\"  x ") ≡ some (record { items = items; valid = true })
unfolding parse split split_loop scan skip_spaces keep add_items add_item add_value flag take_name
    take_value unquote
parse_runs = refl

spaces_only : parse space (codes "   ") ≡ some (record { items = []; valid = false })
unfolding parse split split_loop scan skip_spaces keep
spaces_only = refl

split-join_example :
    split space (join space b' ' refl refl (codes "/p:\"a b\"" ∷ codes "x" ∷ []))
    ≡ some (codes "/p:\"a b\"" ∷ codes "x" ∷ [])
split-join_example =
    split-join space b' ' refl refl (codes "/p:\"a b\"" ∷ codes "x" ∷ []) (ground arith)

split_total_run : (l : List Text) × (split space (codes "a  b") ≡ some l)
split_total_run = split_total space (codes "a  b")

flag_forms_run :
    (flag (codes "/D=\"1\"") ≡ record { name = codes "D"; value = unquote (codes "\"1\"") })
    × (flag (codes "-D=\"1\"") ≡ record { name = codes "D"; value = unquote (codes "\"1\"") })
    × (flag (codes "--D=\"1\"") ≡ record { name = codes "D"; value = unquote (codes "\"1\"") })
flag_forms_run = flag_forms (codes "D") (codes "\"1\"") b'=' (refl, tt) refl (inr refl)

flag_quoted_example : flag (codes "/D\"67\"8") ≡ record { name = codes "D"; value = codes "67" }
flag_quoted_example = flag_quoted (codes "D") (codes "67") (codes "8") (refl, tt) (omega arith)

add_item_detached_example :
    add_item (add_item [] (codes "/D")) (codes "90") ≡ add_item [] (codes "/D:90")
add_item_detached_example =
    add_item_detached [] (codes "D") (codes "90") (λ e. cc e) (refl, tt) refl refl

unquote-quoted_example :
    (unquote (codes "\"a\"") ≡ codes "a")
    × (◌≢◌ {A = ℕ} b'c' b'"' → unquote (codes "ct") ≡ codes "ct")
    × (◌≢◌ {A = ℕ} b'c' b'"' → unquote (codes "\"ac") ≡ codes "\"ac")
unquote-quoted_example = unquote-quoted (codes "a") b'c' (codes "t")

single_value-values_example :
    single_value items (codes "path") ≡ head? (values items (codes "path"))
single_value-values_example = single_value-values items (codes "path")

found : single_value items (codes "path") ≡ some (codes "a b")
unfolding single_value
found = refl

present-single_value_example : present items (codes "path") ≡ true
present-single_value_example = present-single_value items (codes "path") (codes "a b") found
