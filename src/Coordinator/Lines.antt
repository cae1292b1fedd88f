-- ===== src/Coordinator/Lines.antt =====
-- The text helpers of coordinator.cpp: lists in one column, file names, and action keys.
pub mod RoundTrip
use distcompile.Prelude.{
  newline, is_among, take, drop, append-nil, append_assoc, ℕ, zero, suc, ◌+◌, ◌/◌, ◌%◌, List, [],
  ◌∷◌, ◌++◌, map, Text, codes, ◌==◌, ltb, if◌then◌else◌, is_empty,
}
use distcompile.Util.{sha256_parts}

-- A line break before every entry but the first.
unfoldable pub join_rest : List Text → Text
join_rest [] = []
join_rest (s ∷ v) = newline ∷ s ++ join_rest v

unfoldable pub join_lines : List Text → Text
unfolding join_rest
join_lines [] = []
join_lines (s ∷ v) = s ++ join_rest v

-- The loop of `split_lines`; `line` is what was read since the last line break.
unfoldable pub split_from : Text → Text → List Text
split_from line [] = line ∷ []
split_from line (c ∷ s) =
    let next = line ∷ split_from [] s in
    let more = split_from (line ++ c ∷ []) s in if c == newline then next else more

unfoldable pub split_lines : Text → List Text
unfolding split_from
split_lines [] = []
split_lines (c ∷ s) = split_from [] (c ∷ s)

-- obj/src/a.o -> obj_src_a.o
unfoldable pub flat_name : Text → Text
flat_name n = map (λ c. if c == b'/' then b'_' else c) n

-- std::to_string; the fuel `n + 1` is enough, since each round divides by ten.
unfoldable pub digits_from : ℕ → ℕ → Text → Text
digits_from zero n out = out
digits_from (suc fuel) n out =
    let rest = digits_from fuel (n / 10) ((b'0' + n % 10) ∷ out) in
    if ltb n 10 then (b'0' + n) ∷ out else rest

unfoldable pub to_string : ℕ → Text
unfolding digits_from
to_string n = digits_from (n + 1) n []

-- The loop over `names` and `digests`; both have one entry for each dependency.
unfoldable pub pair_up : List Text → List Text → List Text
pair_up [] digests = []
pair_up (n ∷ names) [] = []
pair_up (n ∷ names) (d ∷ digests) = n ∷ d ∷ pair_up names digests

-- What `action_key` hashes.
unfoldable pub action_parts : ℕ → Text → Text → List Text → List Text → List Text
unfolding pair_up to_string
action_parts kind toolchain args names digests =
    codes "dc-action-v1" ∷ to_string kind ∷ toolchain ∷ args ∷ pair_up names digests

unfoldable pub action_key : (Text → Text) → ℕ → Text → Text → List Text → List Text → Text
unfolding action_parts
action_key sha256 kind toolchain args names digests =
    sha256_parts sha256 (action_parts kind toolchain args names digests)
