-- ===== src/Db.antt =====
-- db.cpp: the array literals of PostgreSQL.
pub mod RoundTrip
pub mod Transaction
pub mod Pool
use distcompile.Prelude.{
  ℕ, Bool, true, false, ◌&&◌, ◌||◌, not, List, [], ◌∷◌, ◌++◌, Text, codes, ltb, ◌==◌, if◌then◌else◌,
  length, is_empty,
}

abbrev pub quote : ℕ
quote = 34

abbrev pub backslash : ℕ
backslash = 92

abbrev pub comma : ℕ
comma = 44

-- The characters of an item, quotes and backslashes behind a backslash.
unfoldable pub escape : Text → Text
escape [] = []
escape (c ∷ s) = if (c == quote) || (c == backslash) then backslash ∷ c ∷ escape s else c ∷ escape s

unfoldable pub item_text : Bool → Text → Text
unfolding escape
item_text empty_is_null item =
    if empty_is_null && is_empty item then codes "NULL" else quote ∷ escape item ++ quote ∷ []

-- The items behind the first.
unfoldable pub more_items : Bool → List Text → Text
unfolding item_text
more_items empty_is_null [] = []
more_items empty_is_null (item ∷ items) =
    comma ∷ item_text empty_is_null item ++ more_items empty_is_null items

unfoldable pub pg_array : Bool → List Text → Text
unfolding more_items
pg_array empty_is_null [] = b'{' ∷ b'}' ∷ []
pg_array empty_is_null (item ∷ items) =
    b'{' ∷ ((item_text empty_is_null item ++ more_items empty_is_null items) ++ b'}' ∷ [])

-- The loop of `parse_pg_array` from some character on: the flags `quoted` and `in_item` and the item
-- `cur` that is being read. The last character is not read. The items follow, with the item that the
-- end of the text leaves; `long` is `lit.size() > 2`.
unfoldable pub parse_items : Bool → Bool → Bool → Text → Text → List Text
parse_items long quoted in_item cur [] =
    if in_item || not (is_empty cur) || long then cur ∷ [] else []
parse_items long quoted in_item cur (c ∷ []) =
    if in_item || not (is_empty cur) || long then cur ∷ [] else []
parse_items long true in_item cur (c ∷ e ∷ []) =
    let closed = parse_items long false in_item cur (e ∷ []) in
    let kept = parse_items long true in_item (cur ++ c ∷ []) (e ∷ []) in
    if c == quote then closed else kept
parse_items long true in_item cur (c ∷ e ∷ f ∷ s) =
    let escaped = parse_items long true in_item (cur ++ e ∷ []) (f ∷ s) in
    let closed = parse_items long false in_item cur (e ∷ f ∷ s) in
    let kept = parse_items long true in_item (cur ++ c ∷ []) (e ∷ f ∷ s) in
    if c == backslash then escaped else if c == quote then closed else kept
parse_items long false in_item cur (c ∷ e ∷ s) =
    let opened = parse_items long true true cur (e ∷ s) in
    let next = parse_items long false false [] (e ∷ s) in
    let kept = parse_items long false true (cur ++ c ∷ []) (e ∷ s) in
    if c == quote then opened else if c == comma then cur ∷ next else kept

unfoldable pub parse_pg_array : Text → List Text
unfolding parse_items
parse_pg_array [] = []
parse_pg_array (a ∷ []) = []
parse_pg_array (a ∷ b ∷ s) = parse_items (ltb 0 (length s)) false false [] (b ∷ s)
