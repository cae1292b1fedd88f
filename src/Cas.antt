-- ===== src/Cas.antt =====
-- cas.h and cas.cpp: the blob store. The file system is a map from paths to contents with the two
-- operations that the code uses; `write` is `write_file_atomic`, which may fail and then leaves the
-- file as it was. SHA-256 is a parameter.
pub mod Store
pub mod Kept
use distcompile.Prelude.{
  newline, is_among, take, drop, append-nil, append_assoc, ℕ, zero, suc, ◌+◌, Bool, true, false,
  ◌&&◌, ◌||◌, not, Option, none, some, List, [], ◌∷◌, ◌++◌, Text, leb, ◌==◌, if◌then◌else◌, length,
  text_eq, is_empty,
}
use distcompile.Util.{sha256_hex}

abbrev pub is_hex : ℕ → Bool
is_hex c = (leb b'0' c && leb c b'9') || (leb b'a' c && leb c b'f')

unfoldable pub all_hex : Text → Bool
all_hex [] = true
all_hex (c ∷ h) = if is_hex c then all_hex h else false

unfoldable pub valid_hash : Text → Bool
unfolding all_hex
valid_hash h = if length h == 64 then all_hex h else false

-- The files that exist, by path.
abbrev pub Files : Type 0
Files = Text → Option Text

unfoldable pub path_of : Text → Text → Text
path_of root hash = root ++ (b'/' ∷ (take 2 hash ++ (b'/' ∷ drop 2 hash)))

-- What `stat` says of a path.
abbrev pub is_some {ℓ} : {A : Type ℓ} → Option A → Bool
is_some none = false
is_some (some x) = true

unfoldable pub has : Text → Files → Text → Bool
unfolding valid_hash path_of
has root files hash = if valid_hash hash then is_some (files (path_of root hash)) else false

abbrev pub write : Files → Text → Text → Files
write files path contents p = if text_eq p path then some contents else files p

-- `put`: the hash, or "" on error, and the files afterwards. `writes` says whether the disk takes
-- the file.
unfoldable pub put : (Text → Text) → (Text → Bool) → Text → Text → Text → Files → Text × Files
unfolding sha256_hex has
put sha256 writes root contents expect files =
    let h = sha256_hex sha256 contents in
    let path = path_of root h in
    if not (is_empty expect) && not (text_eq expect h)
    then ([], files)
    else if has root files h
    then (h, files)
    else if writes path
    then (h, write files path contents)
    else ([], files)

unfoldable pub get : Text → Files → Text → Option Text
unfolding valid_hash path_of
get root files hash = if valid_hash hash then files (path_of root hash) else none

-- `size_of`, with `none` for -1.
unfoldable pub size_of : Text → Files → Text → Option ℕ
unfolding valid_hash path_of
size_of root files hash =
    if valid_hash hash
    then elim (files (path_of root hash)) [ none ↦ none | some contents ↦ some (length contents) ]
    else none

-- `PutBlobs` of coordinator.cpp: each blob in turn, until one does not match its hash.
unfoldable pub put_blobs :
    (Text → Text) → (Text → Bool) → Text → List (Text × Text) → Files → Bool × Files
unfolding put
put_blobs sha256 writes root [] files = (true, files)
put_blobs sha256 writes root ((hash, contents) ∷ blobs) files =
    let (h, files') = put sha256 writes root contents hash files in
    let rest = put_blobs sha256 writes root blobs files' in
    if is_empty h then (false, files') else rest

-- `FindMissing`: the digests that the store does not have.
unfoldable pub find_missing : Text → Files → List Text → List Text
unfolding has
find_missing root files [] = []
find_missing root files (h ∷ hashes) =
    let rest = find_missing root files hashes in if has root files h then rest else h ∷ rest
