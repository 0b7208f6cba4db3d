-- ===== src/CommandLine.antt =====
-- include/SkUser/CommandLine.hxx and src/SkUser/CommandLine.cxx: splitting a command line into
-- items, and reading names and values off them. A string is the list of its UTF-16 units before
-- the terminator. Memory is taken to be there: `push_back` succeeds.
pub mod Split
pub mod Flags
pub mod Query
mod Tests
use mathlib.Core.Option
use sketch.Base.{
  ℕ, zero, suc, Bool, true, false, not, ◌&&◌, ◌||◌, Option, none, some, List, [], ◌∷◌, ◌++◌, length,
  drop, drop_last, ◌==◌, ltb, if◌then◌else◌, get_elem?,
}

abbrev pub Text : Type 0
Text = List ℕ

abbrev pub quote_mark : ℕ
quote_mark = b'"'

-- What `*s` reads: the terminator at the end.
abbrev pub peek : Text → ℕ
peek [] = 0
peek (c ∷ cs) = c

abbrev pub last_unit : Text → ℕ
last_unit [] = 0
last_unit (c ∷ []) = c
last_unit (c ∷ d ∷ cs) = last_unit (d ∷ cs)

-- `_unquote`
pub unquote : Text → Text
unquote s =
    if not (peek s == quote_mark) || ltb (length s) 2
    then s
    else if not (last_unit s == quote_mark)
    then s
    else drop_last (drop 1 s)

-- `iswspace` is the C library's; it is a parameter of what splits.
module _ (space : ℕ → Bool) where
  pub skip_spaces : Text → Text
  skip_spaces [] = []
  skip_spaces (c ∷ cs) = if space c then skip_spaces cs else c ∷ cs

  -- The unit toggles the quotes, or ends the item.
  abbrev pub toggle : Bool → ℕ → Bool
  toggle quotes c = if c == quote_mark then not quotes else quotes

  abbrev pub stops : Bool → ℕ → Bool
  stops quotes c = not (c == quote_mark) && (space c && not quotes)

  -- The inner loop: an item, and what follows the space that ended it.
  pub scan : Bool → Text → Text × Text
  scan quotes [] = ([], [])
  scan quotes (c ∷ cs) =
      let (item, rest) = scan (toggle quotes c) cs in
      if stops quotes c then ([], cs) else (c ∷ item, rest)

  -- An item of no length is not kept.
  pub keep : Text → List Text → List Text
  keep [] items = items
  keep (c ∷ cs) items = (c ∷ cs) ∷ items

  -- The outer loop of `_split`; `none` means that the fuel ran out.
  pub split_loop : ℕ → Text → Option (List Text)
  split_loop zero s = none
  split_loop (suc fuel) [] = some []
  split_loop (suc fuel) (c ∷ cs) =
      let found = scan false (skip_spaces (c ∷ cs)) in
      Option.map (keep found.0) (split_loop fuel found.1)

  pub split : Text → Option (List Text)
  split s = split_loop (suc (length s)) s

pub record Item : Type 0 where
  pub name : Text
  pub value : Text

abbrev pub separator : ℕ → Bool
separator c = c == quote_mark || (c == b':' || c == b'=')

-- The name of a flag, and what follows it.
pub take_name : Text → Text × Text
take_name [] = ([], [])
take_name (c ∷ cs) =
    let (name, rest) = take_name cs in if separator c then ([], c ∷ cs) else (c ∷ name, rest)

pub take_value : Bool → Text → Text
take_value quote [] = []
take_value quote (c ∷ cs) =
    let rest = take_value quote cs in if c == quote_mark && quote then [] else c ∷ rest

-- The value behind the separator `c`: up to the closing quotes, if `c` opens quotes.
abbrev pub flag_value : Text → Text
flag_value [] = []
flag_value (c ∷ cs) = unquote (take_value (c == quote_mark) cs)

-- An item that begins with `/` or `-`, less that.
abbrev pub flag_body : Text → Text
flag_body s = if peek s == b'-' && peek (drop 1 s) == b'-' then drop 2 s else drop 1 s

pub flag : Text → Item
flag s =
    let parts = take_name (flag_body s) in record { name = parts.0; value = flag_value parts.1 }

abbrev pub is_empty : Text → Bool
is_empty [] = true
is_empty (c ∷ cs) = false

-- A value goes to the last item, if that has a name and no value, or stands for itself.
pub add_value : List Item → Text → List Item
add_value [] value = record { name = []; value = value } ∷ []
add_value (i ∷ []) value =
    if not (is_empty i.name) && is_empty i.value
    then record i { value = value } ∷ []
    else i ∷ record { name = []; value = value } ∷ []
add_value (i ∷ j ∷ items) value = i ∷ add_value (j ∷ items) value

-- One round of the constructor's loop.
pub add_item : List Item → Text → List Item
add_item items s =
    if peek s == b'/' || peek s == b'-' then items ++ flag s ∷ [] else add_value items (unquote s)

pub add_items : List Item → List Text → List Item
add_items items [] = items
add_items items (s ∷ raw) = add_items (add_item items s) raw

pub record CommandLine : Type 0 where
  pub items : List Item
  pub valid : Bool

abbrev pub from_items : List Text → CommandLine
from_items [] = record { items = []; valid = false }
from_items (s ∷ raw) = record { items = add_items [] (s ∷ raw); valid = true }

-- `CommandLine(const String& cl)`
pub parse : (ℕ → Bool) → Text → Option CommandLine
parse space cl = Option.map from_items (split space cl)

-- `operator==` of two strings
abbrev pub text_eq : Text → Text → Bool
text_eq [] [] = true
text_eq [] (d ∷ ds) = false
text_eq (c ∷ cs) [] = false
text_eq (c ∷ cs) (d ∷ ds) = c == d && text_eq cs ds

-- `present`, `values` and `singleValue`, over the items
pub present : List Item → Text → Bool
present [] flag = false
present (i ∷ items) flag =
    let rest = present items flag in if text_eq i.name flag then true else rest

pub values : List Item → Text → List Text
values [] name = []
values (i ∷ items) name =
    let rest = values items name in
    if text_eq i.name name && not (is_empty i.value) then i.value ∷ rest else rest

pub single_value : List Item → Text → Option Text
single_value [] name = none
single_value (i ∷ items) name =
    let rest = single_value items name in
    if text_eq i.name name && not (is_empty i.value) then some i.value else rest
