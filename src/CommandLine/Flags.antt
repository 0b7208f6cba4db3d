-- ===== src/CommandLine/Flags.antt =====
-- src/SkUser/CommandLine.cxx: how one item is read.
use sketch.Base.{
  ℕ, ◌≡◌, ◌≢◌, refl, sym, ap, ap₂, ◌⊎◌, ◌∙◌, true, false, ◌&&◌, List, [], ◌∷◌, ◌++◌, length, ◌==◌,
  ltb, arith, inl, length-append, drop_last-append,
}
use sketch.CommandLine.{
  Text, Item, quote_mark, peek, last_unit, unquote, separator, take_name, take_value, flag,
  flag_value, add_value, add_item,
}

last_unit-append : (s : Text) (c : ℕ) → last_unit (s ++ c ∷ []) ≡ c
last_unit-append [] c = refl
last_unit-append (d ∷ []) c = refl
last_unit-append (d ∷ e ∷ s) c = last_unit-append (e ∷ s) c

-- `_unquote` takes off one pair of quotes, and leaves a string without one as it is.
pub unquote-quoted :
    (s : Text) (c : ℕ) (t : Text)
    → (unquote (quote_mark ∷ s ++ quote_mark ∷ []) ≡ s)
      × (c ≢ quote_mark → unquote (c ∷ t) ≡ c ∷ t)
      × (c ≢ quote_mark → unquote (quote_mark ∷ s ++ c ∷ []) ≡ quote_mark ∷ s ++ c ∷ [])
unfolding unquote
unquote-quoted s c t = (
  let l : ltb (length (quote_mark ∷ s ++ quote_mark ∷ [])) 2 ≡ false =
        ground (arith, length-append s (quote_mark ∷ [])) in
      let e : last_unit (quote_mark ∷ s ++ quote_mark ∷ []) ≡ quote_mark =
        last_unit-append (quote_mark ∷ s) quote_mark in
      rw (l, e) (drop_last-append s quote_mark),
  λ h. let e : (c == quote_mark) ≡ false = ground arith in rw e,
  λ h.
      let l : ltb (length (quote_mark ∷ s ++ c ∷ [])) 2 ≡ false =
        ground (arith, length-append s (c ∷ [])) in
      let e : last_unit (quote_mark ∷ s ++ c ∷ []) ≡ c = last_unit-append (quote_mark ∷ s) c in
      let n : (c == quote_mark) ≡ false = ground arith in rw (l, e, n),
)

-- A name has no separator in it.
abbrev pub IsName : Text → Type 0
IsName [] = Unit
IsName (c ∷ cs) = (separator c ≡ false) × IsName cs

take_name-IsName :
    (n : Text) (c : ℕ) (v : Text)
    → IsName n
    → separator c ≡ true
    → take_name (n ++ c ∷ v) ≡ (n, c ∷ v)
unfolding take_name
take_name-IsName [] c v h s = rw s
take_name-IsName (d ∷ n) c v h s = rw (h.0, take_name-IsName n c v h.1 s)

take_name-all : (n : Text) → IsName n → take_name n ≡ (n, [])
unfolding take_name
take_name-all [] h = refl
take_name-all (d ∷ n) h = rw (h.0, take_name-all n h.1)

take_value-all : (v : Text) → take_value false v ≡ v
unfolding take_value
take_value-all [] = refl
take_value-all (c ∷ v) =
    let e : (c == quote_mark && false) ≡ false = ground arith in rw (e, take_value-all v)

abbrev pub IsMark : ℕ → Type 0
IsMark c = (c ≡ b':') ⊎ (c ≡ b'=')

mark-separator : (c : ℕ) → IsMark c → separator c ≡ true
mark-separator c h = ground arith

mark-quote : (c : ℕ) → IsMark c → (c == quote_mark) ≡ false
mark-quote c h = ground arith

abbrev named : Text → Text → Item
named n v = record { name = n; value = v }

-- What stands behind the prefix, read as a name, a mark and a value.
body-named :
    (n v : Text) (c : ℕ) → IsName n → IsMark c → flag_value (take_name (n ++ c ∷ v)).1 ≡ unquote v
body-named n v c h m =
    rw (take_name-IsName n c v h (mark-separator c m), mark-quote c m, take_value-all v)

peek-append :
    (n v : Text) (c : ℕ) → IsMark c → (peek n == b'-') ≡ false → (peek (n ++ c ∷ v) == b'-') ≡ false
peek-append [] v c m h = ground arith
peek-append (d ∷ n) v c m h = h

-- With a name of no separator that does not begin with a dash, and `:` or `=` as the mark,
-- `/name:value`, `-name:value` and `--name:value` are the same flag: the name up to the mark, and
-- the value behind it, less its quotes.
pub flag_forms :
    (n v : Text) (c : ℕ)
    → IsName n
    → (peek n == b'-') ≡ false
    → IsMark c
    → (flag (b'/' ∷ n ++ c ∷ v) ≡ record { name = n; value = unquote v })
      × (flag (b'-' ∷ n ++ c ∷ v) ≡ record { name = n; value = unquote v })
      × (flag (b'-' ∷ b'-' ∷ n ++ c ∷ v) ≡ record { name = n; value = unquote v })
unfolding flag
flag_forms n v c h d m =
    let name : (take_name (n ++ c ∷ v)).0 ≡ n =
      rw (take_name-IsName n c v h (mark-separator c m)) in
    let value = body-named n v c h m in
    (ap₂ named name value, rw (peek-append n v c m d) (ap₂ named name value), ap₂ named name value)

-- No unit of the text is a quote.
abbrev pub NoQuote : Text → Type 0
NoQuote [] = Unit
NoQuote (c ∷ cs) = (c ≢ quote_mark) × NoQuote cs

take_value-quoted : (v w : Text) → NoQuote v → take_value true (v ++ quote_mark ∷ w) ≡ v
unfolding take_value
take_value-quoted [] w h = refl
take_value-quoted (c ∷ v) w h =
    let e : (c == quote_mark) ≡ false = ground arith in rw (e, take_value-quoted v w h.1)

unquote-NoQuote : (v : Text) → NoQuote v → unquote v ≡ v
unfolding unquote
unquote-NoQuote [] h = refl
unquote-NoQuote (c ∷ v) h = let e : (c == quote_mark) ≡ false = ground arith in rw e

-- `/name"value"`, with no separator in the name and no quotes in the value, is a flag whose value
-- ends at the closing quotes, whatever follows.
pub flag_quoted :
    (n v w : Text)
    → IsName n
    → NoQuote v
    → flag (b'/' ∷ n ++ (quote_mark ∷ v ++ quote_mark ∷ w)) ≡ record { name = n; value = v }
unfolding flag
flag_quoted n v w h q =
    rw (take_name-IsName n quote_mark (v ++ quote_mark ∷ w) h refl, take_value-quoted v w q)
      (ap (named n) (unquote-NoQuote v q))

add_value-append :
    (items : List Item) (n v : Text)
    → n ≢ []
    → add_value (items ++ record { name = n; value = [] } ∷ []) v
      ≡ items ++ record { name = n; value = v } ∷ []
unfolding add_value
add_value-append [] [] v h = absurd (h refl)
add_value-append [] (c ∷ n) v h = refl
add_value-append (i ∷ []) n v h = ap (λ l. i ∷ l) (add_value-append [] n v h)
add_value-append (i ∷ j ∷ items) n v h = ap (λ l. i ∷ l) (add_value-append (j ∷ items) n v h)

-- For a name that is not empty and has no separator, a value that is given as the next item, and
-- begins with neither `/` nor `-`, gives the same items as the value behind the flag's colon.
pub add_item_detached :
    (items : List Item) (n v : Text)
    → n ≢ []
    → IsName n
    → (peek v == b'/') ≡ false
    → (peek v == b'-') ≡ false
    → add_item (add_item items (b'/' ∷ n)) v ≡ add_item items (b'/' ∷ n ++ b':' ∷ v)
unfolding add_item flag
add_item_detached items n v z h a b =
    let value = body-named n v b':' h (inl refl) in
    let name : (take_name (n ++ b':' ∷ v)).0 ≡ n = rw (take_name-IsName n b':' v h refl) in
    rw (a, b, take_name-all n h)
      (add_value-append items n (unquote v) z
        ∙ ap (λ i. items ++ i ∷ []) (ap₂ named (sym name) (sym value)))
