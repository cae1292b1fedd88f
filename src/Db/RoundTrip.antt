-- ===== src/Db/RoundTrip.antt =====
-- What the parser of array literals reads back.
use distcompile.Prelude.{
  append-nil, append_assoc, ℕ, true, false, ◌≡◌, refl, ◌||◌, List, [], ◌∷◌, ◌++◌, Text, ◌==◌,
  Bool-cases, arith, inl, inr,
}
use distcompile.Db.{
  quote, backslash, comma, escape, item_text, more_items, pg_array, parse_items, parse_pg_array,
}

-- The closing quote, when a character follows.
parse_close :
    (cur : Text) (e : ℕ) (s : Text)
    → parse_items true true true cur (quote ∷ e ∷ s) ≡ parse_items true false true cur (e ∷ s)
unfolding parse_items
parse_close cur e [] = refl
parse_close cur e (f ∷ s) = refl

parse_escaped :
    (cur : Text) (c e : ℕ) (s : Text)
    → parse_items true true true cur (backslash ∷ c ∷ e ∷ s)
      ≡ parse_items true true true (cur ++ c ∷ []) (e ∷ s)
unfolding parse_items
parse_escaped cur c e s = refl

parse_plain :
    (cur : Text) (c e : ℕ) (s : Text)
    → ((c == quote) || (c == backslash)) ≡ false
    → parse_items true true true cur (c ∷ e ∷ s)
      ≡ parse_items true true true (cur ++ c ∷ []) (e ∷ s)
unfolding parse_items
parse_plain cur c e [] q = ground (arith, q)
parse_plain cur c e (f ∷ s) q = ground (arith, q)

escape_special :
    (c : ℕ) (item : Text)
    → ((c == quote) || (c == backslash)) ≡ true
    → escape (c ∷ item) ≡ backslash ∷ c ∷ escape item
unfolding escape
escape_special c item q = rw (q)

escape_plain :
    (c : ℕ) (item : Text)
    → ((c == quote) || (c == backslash)) ≡ false
    → escape (c ∷ item) ≡ c ∷ escape item
unfolding escape
escape_plain c item q = rw (q)

-- The text behind an item starts with some character.
escape_head :
    (item : Text) (u : ℕ) (s : Text) → (d : ℕ) × (t : Text) × (escape item ++ (u ∷ s) ≡ d ∷ t)
unfolding escape
escape_head [] u s = (u, s, refl)
escape_head (c ∷ item) u s = elim (Bool-cases ((c == quote) || (c == backslash))) [
  | inl e ↦ (backslash, c ∷ (escape item ++ (u ∷ s)), rw (e))
  | inr e ↦ (c, escape item ++ (u ∷ s), rw (e))
]

-- A quoted item, with its closing quote and at least one character behind it.
parse_item :
    (item cur : Text) (e : ℕ) (s : Text)
    → parse_items true true true cur (escape item ++ (quote ∷ e ∷ s))
      ≡ parse_items true false true (cur ++ item) (e ∷ s)
unfolding escape
parse_item [] cur e s = cc (parse_close cur e s, append-nil cur)
parse_item (c ∷ item) cur e s =
    let rest = parse_item item (cur ++ c ∷ []) e s in
    let (d, t, behind) = escape_head item quote (e ∷ s) in
    elim (Bool-cases ((c == quote) || (c == backslash))) [
      | inl q ↦ cc (
        escape_special c item q,
        parse_escaped cur c d t,
        behind,
        rest,
        append_assoc cur (c ∷ []) item,
      )
      | inr q ↦ cc (
        escape_plain c item q,
        parse_plain cur c d t q,
        behind,
        rest,
        append_assoc cur (c ∷ []) item,
      )
    ]

more_head :
    (items : List Text) → (d : ℕ) × (t : Text) × (more_items false items ++ (b'}' ∷ []) ≡ d ∷ t)
unfolding more_items
more_head [] = (b'}', [], refl)
more_head (item ∷ items) =
    (comma, (item_text false item ++ more_items false items) ++ (b'}' ∷ []), refl)

-- The comma and the quote in front of an item.
parse_comma :
    (cur : Text) (c : ℕ) (s : Text)
    → parse_items true false true cur (comma ∷ quote ∷ c ∷ s)
      ≡ cur ∷ parse_items true true true [] (c ∷ s)
unfolding parse_items
parse_comma cur c [] = refl
parse_comma cur c (d ∷ s) = refl

item_more :
    (item : Text) (items : List Text)
    → (item_text false item ++ more_items false items) ++ (b'}' ∷ [])
      ≡ quote ∷ (escape item ++ (quote ∷ (more_items false items ++ (b'}' ∷ []))))
unfolding item_text
item_more item items = cc (
  append_assoc (escape item) (quote ∷ []) (more_items false items),
  append_assoc (escape item) (quote ∷ more_items false items) (b'}' ∷ []),
)

parse_more :
    (items : List Text) (cur : Text)
    → parse_items true false true cur (more_items false items ++ (b'}' ∷ [])) ≡ cur ∷ items
unfolding more_items parse_items
parse_more [] [] = refl
parse_more [] (c ∷ cur) = refl
parse_more (item ∷ items) cur =
    let (d, t, tail) = more_head items in
    let (u, v, all) = escape_head item quote (d ∷ t) in
    cc (
      item_more item items,
      parse_comma cur u v,
      all,
      parse_item item [] d t,
      tail,
      parse_more items item,
    )

-- The opening quote of the first item.
opening :
    (c : ℕ) (s : Text)
    → parse_items true false false [] (quote ∷ c ∷ s) ≡ parse_items true true true [] (c ∷ s)
unfolding parse_items
opening c [] = refl
opening c (d ∷ s) = refl

parse_cut :
    (c : ℕ) (s : Text)
    → parse_pg_array (b'{' ∷ quote ∷ c ∷ s) ≡ parse_items true false false [] (quote ∷ c ∷ s)
unfolding parse_pg_array
parse_cut c s = ground arith

-- The parser of array literals reads back every list of items that `pg_array` writes without
-- `empty_is_null`: the empty list, empty items, and items with quotes, backslashes, commas or braces.
pub parse_pg_array-pg_array : (items : List Text) → parse_pg_array (pg_array false items) ≡ items
unfolding parse_pg_array pg_array parse_items
parse_pg_array-pg_array [] = refl
parse_pg_array-pg_array (item ∷ items) =
    let (d, t, tail) = more_head items in
    let (u, v, all) = escape_head item quote (d ∷ t) in
    cc (
      item_more item items,
      parse_cut u v,
      opening u v,
      all,
      parse_item item [] d t,
      tail,
      parse_more items item,
    )
