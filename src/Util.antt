-- ===== src/Util.antt =====
-- util.h and util.cpp: hashing, words and paths. OpenSSL's SHA-256 (EVP_Digest, EVP_DigestUpdate)
-- is the parameter `sha256`, from the bytes that are fed in to the bytes of the digest.
pub mod Frame
use distcompile.Prelude.{
  ℕ, zero, suc, ◌+◌, ◌-◌, ◌/◌, ◌%◌, Bool, true, false, ◌&&◌, ◌||◌, Option, none, some, List, [],
  ◌∷◌, ◌++◌, Text, ltb, ◌==◌, if◌then◌else◌, length, is_empty,
}

-- `d[x]` of the table "0123456789abcdef".
unfoldable pub hex_digit : ℕ → ℕ
hex_digit x = if ltb x 10 then b'0' + x else b'a' + (x - 10)

-- `p[i] >> 4` and `p[i] & 15` of a byte.
unfoldable pub to_hex : Text → Text
unfolding hex_digit
to_hex [] = []
to_hex (b ∷ p) = hex_digit (b / 16) ∷ hex_digit (b % 16) ∷ to_hex p

-- `sha256_hex(const std::string&)`
unfoldable pub sha256_hex : (Text → Text) → Text → Text
unfolding to_hex
sha256_hex sha256 text = to_hex (sha256 text)

-- The bytes of a `uint64_t` in memory, least first.
unfoldable pub le_bytes : ℕ → ℕ → Text
le_bytes zero n = []
le_bytes (suc k) n = n % 256 ∷ le_bytes k (n / 256)

-- What the loop over `parts` feeds to the digest: each part behind its length.
unfoldable pub frame : List Text → Text
unfolding le_bytes
frame [] = []
frame (p ∷ parts) = le_bytes 8 (length p) ++ p ++ frame parts

-- `sha256_hex(const std::vector<std::string>&)`
unfoldable pub sha256_parts : (Text → Text) → List Text → Text
unfolding frame to_hex
sha256_parts sha256 parts = to_hex (sha256 (frame parts))

-- The characters that `operator>>` skips: std::isspace in the "C" locale.
abbrev pub is_space : ℕ → Bool
is_space c = (c == 32) || (c == 9) || (c == 10) || (c == 11) || (c == 12) || (c == 13)

-- `is >> w` until the text ends; `w` is the word so far.
unfoldable pub words_from : Text → Text → List Text
words_from w [] = if is_empty w then [] else w ∷ []
words_from w (c ∷ s) =
    let rest = words_from [] s in
    let more = words_from (w ++ c ∷ []) s in
    if is_space c then (if is_empty w then rest else w ∷ rest) else more

unfoldable pub split_ws : Text → List Text
unfolding words_from
split_ws s = words_from [] s

-- The characters of " \t\r\n".
abbrev pub is_blank : ℕ → Bool
is_blank c = (c == 32) || (c == 9) || (c == 13) || (c == 10)

-- From `find_first_not_of` on.
unfoldable pub drop_blanks : Text → Text
drop_blanks [] = []
drop_blanks (c ∷ s) = if is_blank c then drop_blanks s else c ∷ s

-- Up to `find_last_not_of`.
unfoldable pub drop_last_blanks : Text → Text
drop_last_blanks [] = []
drop_last_blanks (c ∷ s) =
    let rest = drop_last_blanks s in if is_empty rest && is_blank c then [] else c ∷ rest

unfoldable pub trim : Text → Text
unfolding drop_blanks drop_last_blanks
trim s = drop_last_blanks (drop_blanks s)

-- What stands behind the last '/', if there is one.
unfoldable pub after_last_slash : Text → Option Text
after_last_slash [] = none
after_last_slash (c ∷ s) = elim (after_last_slash s) [
  | some t ↦ some t
  | none ↦ if c == b'/' then some s else none
]

unfoldable pub basename_of : Text → Text
unfolding after_last_slash
basename_of path = elim (after_last_slash path) [ none ↦ path | some t ↦ t ]
