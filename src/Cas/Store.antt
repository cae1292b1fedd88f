-- ===== src/Cas/Store.antt =====
-- What the blob store keeps of its files, and what it reads back.
use distcompile.Prelude.{
  take, drop, ℕ, zero, suc, ◌*◌, ◌/◌, ◌%◌, ◌≤◌, ◌<◌, ◌≡◌, ◌≢◌, refl, ◌⊎◌, inl, inr, Bool, true,
  none, some, List, [], ◌∷◌, ◌++◌, Text, arith, Bool-cases, length, All, text_eq, text_eq→≡,
  text_eq_refl, is_empty,
}
use distcompile.Util.{to_hex, hex_digit, sha256_hex}
use distcompile.Cas.{is_hex, all_hex, valid_hash, Files, path_of, has, write, put, get, put_blobs}

-- What the code relies on in SHA-256: a digest has 32 bytes.
pub record IsDigest (sha256 : Text → Text) : Type 0 where
  pub size : (s : Text) → length (sha256 s) ≡ 32
  pub bytes : (s : Text) → All (λ b. b < 256) (sha256 s)

hex_digit-is_hex : (x : ℕ) → x < 16 → is_hex (hex_digit x) ≡ true
unfolding hex_digit
hex_digit-is_hex x h = ground arith

to_hex-all_hex : (p : Text) → All (λ b. b < 256) p → all_hex (to_hex p) ≡ true
unfolding to_hex all_hex
to_hex-all_hex [] h = refl
to_hex-all_hex (b ∷ p) h = simp (
  hex_digit-is_hex (b / 16) (omega arith),
  hex_digit-is_hex (b % 16) (omega arith),
  to_hex-all_hex p h.1,
)

length-to_hex : (p : Text) → length (to_hex p) ≡ 2 * length p
unfolding to_hex
length-to_hex [] = refl
length-to_hex (b ∷ p) = omega (arith, length-to_hex p)

-- Every hash that the program computes is a valid name of a blob.
pub sha256_hex-valid_hash :
    (sha256 : Text → Text) (s : Text) → IsDigest sha256 → valid_hash (sha256_hex sha256 s) ≡ true
unfolding valid_hash sha256_hex
sha256_hex-valid_hash sha256 s d =
    ground (arith, to_hex-all_hex (sha256 s) (d.bytes s), length-to_hex (sha256 s), d.size s)

take-drop : (k : ℕ) (s t : Text) → take k s ≡ take k t → drop k s ≡ drop k t → s ≡ t
take-drop zero s t a b = b
take-drop (suc k) [] [] a b = refl
take-drop (suc k) [] (c ∷ t) a b = absurd (cc)
take-drop (suc k) (c ∷ s) [] a b = absurd (cc)
take-drop (suc k) (c ∷ s) (e ∷ t) a b = cc (take-drop k s t (cc) b)

append-cancel : (r s t : Text) → r ++ s ≡ r ++ t → s ≡ t
append-cancel [] s t e = e
append-cancel (c ∷ r) s t e = append-cancel r s t (cc)

two_apart :
    (s t u v : Text)
    → 2 ≤ length s
    → 2 ≤ length t
    → take 2 s ++ u ≡ take 2 t ++ v
    → (take 2 s ≡ take 2 t) × (u ≡ v)
two_apart [] t u v hs ht e = absurd (omega arith)
two_apart (a ∷ []) t u v hs ht e = absurd (omega arith)
two_apart (a ∷ b ∷ s) [] u v hs ht e = absurd (omega arith)
two_apart (a ∷ b ∷ s) (c ∷ []) u v hs ht e = absurd (omega arith)
two_apart (a ∷ b ∷ s) (c ∷ d ∷ t) u v hs ht e = (cc, cc)

-- Different hashes have different files.
path_of-injective :
    (root s t : Text) → 2 ≤ length s → 2 ≤ length t → path_of root s ≡ path_of root t → s ≡ t
unfolding path_of
path_of-injective root s t hs ht e =
    let (first, rest) = two_apart s t (b'/' ∷ drop 2 s) (b'/' ∷ drop 2 t) hs ht (
      cc (
        append-cancel root (b'/' ∷ (take 2 s ++ (b'/' ∷ drop 2 s)))
          (b'/' ∷ (take 2 t ++ (b'/' ∷ drop 2 t))) e)) in
    take-drop 2 s t first (cc rest)

valid_hash-length : (h : Text) → valid_hash h ≡ true → length h ≡ 64
unfolding valid_hash
valid_hash-length h v = ground (arith, v)

-- Every file that stands where a hash is looked up has that hash.
abbrev pub IsSound : (Text → Text) → Text → Files → Type 0
IsSound sha256 root files =
    (h contents : Text)
    → valid_hash h ≡ true
    → files (path_of root h) ≡ some contents
    → sha256_hex sha256 contents ≡ h

pub put-IsSound :
    (sha256 : Text → Text) (writes : Text → Bool) (root contents expect : Text) (files : Files)
    → IsDigest sha256
    → IsSound sha256 root files
    → IsSound sha256 root (put sha256 writes root contents expect files).1
unfolding put
put-IsSound sha256 writes root contents expect files d inv h c v e =
    elim (Bool-cases (text_eq (path_of root h) (path_of root (sha256_hex sha256 contents)))) [
      | inl same ↦
          let at =
            path_of-injective root h (sha256_hex sha256 contents)
              (omega (arith, valid_hash-length h v))
              (omega (
                arith,
                valid_hash-length (sha256_hex sha256 contents)
                    (sha256_hex-valid_hash sha256 contents d),
              ))
              (text_eq→≡ (path_of root h) (path_of root (sha256_hex sha256 contents)) same) in
          ground (arith, same, at, inv h c v)
      | inr other ↦ ground (arith, other, inv h c v)
    ]

-- A store that holds under each hash only bytes with that hash, where digests have 32 bytes, goes
-- on doing so whatever blobs arrive, under whatever hashes they are sent, and whether the disk
-- takes them or not.
pub put_blobs-IsSound :
    (sha256 : Text → Text) (writes : Text → Bool) (root : Text) (blobs : List (Text × Text))
    (files : Files)
    → IsDigest sha256
    → IsSound sha256 root files
    → IsSound sha256 root (put_blobs sha256 writes root blobs files).1
unfolding put_blobs
put_blobs-IsSound sha256 writes root [] files d inv = inv
put_blobs-IsSound sha256 writes root ((h, c) ∷ blobs) files d inv =
    let now = put-IsSound sha256 writes root c h files d inv in
    let rest =
      put_blobs-IsSound sha256 writes root blobs (put sha256 writes root c h files).1 d now in
    elim (Bool-cases (is_empty (put sha256 writes root c h files).0)) [
      | inl e ↦ λ k b v f. now k b v (cc)
      | inr e ↦ λ k b v f. rest k b v (cc)
    ]

put-writes :
    (sha256 : Text → Text) (writes : Text → Bool) (root contents expect : Text) (files : Files)
    → IsDigest sha256
    → writes (path_of root (sha256_hex sha256 contents)) ≡ true
    → files (path_of root (sha256_hex sha256 contents)) ≡ none
    → (expect ≡ []) ⊎ (expect ≡ sha256_hex sha256 contents)
    → put sha256 writes root contents expect files ≡ (
      sha256_hex sha256 contents,
      write files (path_of root (sha256_hex sha256 contents)) contents,
    )
unfolding put has
put-writes sha256 writes root contents expect files d w fresh (inl e) =
    rw (e, sha256_hex-valid_hash sha256 contents d, fresh, w)
put-writes sha256 writes root contents expect files d w fresh (inr e) =
    elim (Bool-cases (is_empty (sha256_hex sha256 contents))) [
      | inl empty ↦ rw (e, empty, sha256_hex-valid_hash sha256 contents d, fresh, w)
      | inr empty ↦ rw (
        e,
        empty,
        text_eq_refl (sha256_hex sha256 contents),
        sha256_hex-valid_hash sha256 contents d,
        fresh,
        w,
      )
    ]

get-write :
    (root h hash contents : Text) (files : Files)
    → valid_hash hash ≡ true
    → h ≢ hash
    → get root (write files (path_of root hash) contents) h ≡ get root files h
unfolding get
get-write root h hash contents files v other = elim (Bool-cases (valid_hash h)) [
  | inr e ↦ rw (e)
  | inl e ↦ elim (Bool-cases (text_eq (path_of root h) (path_of root hash))) [
    | inr apart ↦ rw (e, apart)
    | inl same ↦ absurd (
        other (
          path_of-injective root h hash (omega (arith, valid_hash-length h e))
            (omega (arith, valid_hash-length hash v))
            (text_eq→≡ (path_of root h) (path_of root hash) same)))
  ]
]

get-write_same :
    (root hash contents : Text) (files : Files)
    → valid_hash hash ≡ true
    → get root (write files (path_of root hash) contents) hash ≡ some contents
unfolding get
get-write_same root hash contents files v = rw (v, text_eq_refl (path_of root hash))

-- A `put` of contents whose file does not exist yet, onto a disk that takes it, with no expected
-- hash or the right one, where digests have 32 bytes: it returns the hash of the contents, `get`
-- of that hash then returns the contents, and every other hash reads as before.
pub put-get :
    (sha256 : Text → Text) (writes : Text → Bool) (root contents expect : Text) (files : Files)
    → IsDigest sha256
    → writes (path_of root (sha256_hex sha256 contents)) ≡ true
    → files (path_of root (sha256_hex sha256 contents)) ≡ none
    → (expect ≡ []) ⊎ (expect ≡ sha256_hex sha256 contents)
    → ((put sha256 writes root contents expect files).0 ≡ sha256_hex sha256 contents)
      × (get root (put sha256 writes root contents expect files).1 (sha256_hex sha256 contents)
          ≡ some contents)
      × ((h : Text)
          → h ≢ sha256_hex sha256 contents
          → get root (put sha256 writes root contents expect files).1 h ≡ get root files h)
put-get sha256 writes root contents expect files d w fresh ex =
    let v = sha256_hex-valid_hash sha256 contents d in
    let done = put-writes sha256 writes root contents expect files d w fresh ex in
    (
      rw (done),
      rw (done, get-write_same root (sha256_hex sha256 contents) contents files v),
      λ h other. rw (done, get-write root h (sha256_hex sha256 contents) contents files v other),
    )
