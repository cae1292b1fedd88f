-- ===== src/Manifest.antt =====
-- manifest.cpp: the DCBUILD file. `glob`, from a path with wildcards to the paths that match, is a
-- parameter; an exception is the `err` of a result, without the words of its message.
pub mod Accepted
use distcompile.Prelude.{
  drop, ℕ, ◌+◌, Bool, true, false, ◌&&◌, ◌||◌, not, List, [], ◌∷◌, ◌++◌, map, Text, codes, ◌==◌,
  if◌then◌else◌, length, text_eq, is_empty, Result, ok, err, ◌>>=◌,
}
use distcompile.Util.{split_ws}

pub record Target : Type 0 where
  pub is_lib : Bool
  pub name : Text
  pub sources : List Text
  pub libs : List Text

pub record Manifest : Type 0 where
  pub cc : Text
  pub cxx : Text
  pub cflags : List Text
  pub ldflags : List Text
  pub targets : List Target

-- What is wrong, with the line and the word that the message names; a directive is `cxx` or `lib`, or not.
pub data ManifestError : Type 0 where
  matches_nothing : ℕ → Text → ManifestError
  takes_one_argument : ℕ → Bool → ManifestError
  needs_a_source : ℕ → Bool → ManifestError
  duplicate_target : ℕ → Text → ManifestError
  libs_of_a_lib : ℕ → ManifestError
  no_sources : ℕ → Text → ManifestError
  unknown_directive : ℕ → Text → ManifestError
  unknown_lib : Text → Text → ManifestError

-- `pattern.find_first_of("*?[") != npos`
unfoldable pub has_wildcard : Text → Bool
has_wildcard [] = false
has_wildcard (c ∷ s) = if (c == b'*') || (c == b'?') || (c == b'[') then true else has_wildcard s

unfoldable pub expand : (Text → List Text) → Text → Text → ℕ → Result ManifestError (List Text)
unfolding has_wildcard
expand glob root pattern line =
    let out = map (drop (length root + 1)) (glob (root ++ b'/' ∷ pattern)) in
    if not (has_wildcard pattern)
    then ok (pattern ∷ [])
    else elim out [ [] ↦ err (matches_nothing line pattern) | s ∷ more ↦ ok (s ∷ more) ]

-- `std::getline` until the end of the text; `line` is what was read since the last line break.
unfoldable pub getlines : Text → Text → List Text
getlines line [] = if is_empty line then [] else line ∷ []
getlines line (c ∷ s) =
    let next = line ∷ getlines [] s in
    let more = getlines (line ++ c ∷ []) s in if c == 10 then next else more

-- `raw.substr(0, hash)`
unfoldable pub cut_comment : Text → Text
cut_comment [] = []
cut_comment (c ∷ s) = let rest = cut_comment s in if c == b'#' then [] else c ∷ rest

unfoldable pub has_name : Text → List Target → Bool
has_name name [] = false
has_name name (t ∷ ts) = text_eq name t.name || has_name name ts

-- The loop over the words behind the name of a target.
unfoldable pub target_words :
    (Text → List Text) → Text → ℕ → List Text → Bool → Target → Result ManifestError Target
unfolding expand
target_words glob root line [] after_colon t = ok t
target_words glob root line (w ∷ words) after_colon t =
    let colon = target_words glob root line words true t in
    let lib = target_words glob root line words after_colon record t { libs = t.libs ++ w ∷ [] } in
    let source =
      (expand glob root w line >>= λ s.
      target_words glob root line words after_colon record t { sources = t.sources ++ s }) in
    if text_eq w (codes ":")
    then (if t.is_lib then err (libs_of_a_lib line) else colon)
    else if after_colon
    then lib
    else source

-- A `lib` or `bin` line. The set `names` holds the names of the targets so far.
unfoldable pub add_target :
    (Text → List Text) → Text → ℕ → Bool → List Text → Manifest → Result ManifestError Manifest
unfolding target_words has_name
add_target glob root line is_lib [] m = err (needs_a_source line is_lib)
add_target glob root line is_lib (name ∷ words) m =
    let t : Target = record { is_lib = is_lib; name = name; sources = []; libs = [] } in
    if is_empty words
    then err (needs_a_source line is_lib)
    else if has_name name m.targets
    then err (duplicate_target line name)
    else (target_words glob root line words false t >>= λ u. elim u.sources [
      | [] ↦ err (no_sources line name)
      | s ∷ more ↦ ok record m { targets = m.targets ++ u ∷ [] }
    ])

unfoldable pub set_driver : ℕ → Bool → List Text → Manifest → Result ManifestError Manifest
set_driver line cxx [] m = err (takes_one_argument line cxx)
set_driver line cxx (w ∷ []) m = ok (if cxx then record m { cxx = w } else record m { cc = w })
set_driver line cxx (w ∷ v ∷ words) m = err (takes_one_argument line cxx)

-- One line of the file: the directive `d` with the other words.
unfoldable pub directive :
    (Text → List Text) → Text → ℕ → Text → List Text → Manifest → Result ManifestError Manifest
unfolding add_target set_driver
directive glob root line d words m =
    if text_eq d (codes "cc")
    then set_driver line false words m
    else if text_eq d (codes "cxx")
    then set_driver line true words m
    else if text_eq d (codes "cflags")
    then ok record m { cflags = m.cflags ++ words }
    else if text_eq d (codes "ldflags")
    then ok record m { ldflags = m.ldflags ++ words }
    else if text_eq d (codes "lib")
    then add_target glob root line true words m
    else if text_eq d (codes "bin")
    then add_target glob root line false words m
    else err (unknown_directive line d)

-- The loop over the lines, the first of which is number `line`.
unfoldable pub parse_lines :
    (Text → List Text) → Text → ℕ → List Text → Manifest → Result ManifestError Manifest
unfolding cut_comment directive
parse_lines glob root line [] m = ok m
parse_lines glob root line (raw ∷ lines) m = elim (split_ws (cut_comment raw)) [
  | [] ↦ parse_lines glob root (line + 1) lines m
  | d ∷ words ↦ (directive glob root line d words m >>= parse_lines glob root (line + 1) lines)
]

-- `found`
unfoldable pub is_lib_name : Text → List Target → Bool
is_lib_name l [] = false
is_lib_name l (u ∷ us) = (u.is_lib && text_eq u.name l) || is_lib_name l us

unfoldable pub check_libs : List Target → Text → List Text → Result ManifestError Bool
unfolding is_lib_name
check_libs all name [] = ok true
check_libs all name (l ∷ libs) =
    let rest = check_libs all name libs in
    if is_lib_name l all then rest else err (unknown_lib name l)

unfoldable pub check_targets : List Target → List Target → Result ManifestError Bool
unfolding check_libs
check_targets all [] = ok true
check_targets all (t ∷ ts) = (check_libs all t.name t.libs >>= λ done. check_targets all ts)

abbrev pub no_manifest : Manifest
no_manifest = record {
  cc = codes "gcc";
  cxx = codes "g++";
  cflags = [];
  ldflags = [];
  targets = [];
}

unfoldable pub parse_manifest : (Text → List Text) → Text → Text → Result ManifestError Manifest
unfolding getlines parse_lines check_targets
parse_manifest glob text root =
    (parse_lines glob root 1 (getlines [] text) no_manifest >>= λ m.
    (check_targets m.targets m.targets >>= λ done. ok m))
