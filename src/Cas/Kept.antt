-- ===== src/Cas/Kept.antt =====
-- What the blob store has stays, and what it took it has.
use distcompile.Prelude.{
  ◌≡◌, refl, sym, subst, ◌⊎◌, inl, inr, Bool, true, false, List, [], ◌∷◌, Text, arith, Bool-cases,
  is_empty, text_eq, text_eq→≡, text_eq_refl, All,
}
use distcompile.Util.{sha256_hex}
use distcompile.Cas.{Files, valid_hash, has, put, put_blobs, write, path_of}
use distcompile.Cas.Store.{IsDigest, sha256_hex-valid_hash}

write-has :
    (root path contents k : Text) (files : Files)
    → has root files k ≡ true
    → has root (write files path contents) k ≡ true
unfolding has
write-has root path contents k files h = ground arith

write-has_same :
    (root hash contents : Text) (files : Files)
    → valid_hash hash ≡ true
    → has root (write files (path_of root hash) contents) hash ≡ true
unfolding has
write-has_same root hash contents files v = rw (v, text_eq_refl (path_of root hash)) refl

pub put-has :
    (sha256 : Text → Text) (writes : Text → Bool) (root contents expect k : Text) (files : Files)
    → has root files k ≡ true
    → has root (put sha256 writes root contents expect files).1 k ≡ true
unfolding put
put-has sha256 writes root contents expect k files h =
    let new = write-has root (path_of root (sha256_hex sha256 contents)) contents k files h in
    ground (arith, new)

-- Which texts can be told from the empty one.
pub is_empty→≡ : (s : Text) → is_empty s ≡ true → s ≡ []
is_empty→≡ [] e = refl
is_empty→≡ (c ∷ s) e = cc e

put-stores :
    (sha256 : Text → Text) (writes : Text → Bool) (root contents expect : Text) (files : Files)
    → IsDigest sha256
    → is_empty expect ≡ false
    → is_empty (put sha256 writes root contents expect files).0 ≡ false
    → has root (put sha256 writes root contents expect files).1 expect ≡ true
unfolding put
put-stores sha256 writes root contents expect files d given stored =
    let h = sha256_hex sha256 contents in
    let new = write-has_same root h contents files (sha256_hex-valid_hash sha256 contents d) in
    elim (Bool-cases (text_eq expect h)) [
      | inr other ↦ absurd (cc (rw (given, other, put) at stored))
      | inl same ↦
          subst (λ z. has root (put sha256 writes root contents expect files).1 z ≡ true)
            (sym (text_eq→≡ expect h same)) (ground (arith, new, same, given, stored))
    ]

-- A digest that is not empty has a file.
abbrev pub Stored : Text → Files → Text → Type 0
Stored root files digest = (is_empty digest ≡ true) ⊎ (has root files digest ≡ true)

module _ (sha256 : Text → Text) (writes : Text → Bool) (root : Text) where
  pub put_blobs-has :
      (blobs : List (Text × Text)) (files : Files) (k : Text)
      → has root files k ≡ true
      → has root (put_blobs sha256 writes root blobs files).1 k ≡ true
  unfolding put_blobs
  put_blobs-has [] files k h = h
  put_blobs-has ((hash, contents) ∷ blobs) files k h =
      let now = put-has sha256 writes root contents hash k files h in
      let rest = put_blobs-has blobs (put sha256 writes root contents hash files).1 k now in
      elim (Bool-cases (is_empty (put sha256 writes root contents hash files).0)) [
        | inl e ↦ rw (e) now
        | inr e ↦ rw (e) rest
      ]

  pub Stored-put_blobs :
      (blobs : List (Text × Text)) (files : Files) (k : Text)
      → Stored root files k
      → Stored root (put_blobs sha256 writes root blobs files).1 k
  Stored-put_blobs blobs files k (inl e) = inl e
  Stored-put_blobs blobs files k (inr h) = inr (put_blobs-has blobs files k h)

  pub put_blobs-stores :
      (blobs : List (Text × Text)) (files : Files)
      → IsDigest sha256
      → (put_blobs sha256 writes root blobs files).0 ≡ true
      → All (λ b. Stored root (put_blobs sha256 writes root blobs files).1 b.0) blobs
  unfolding put_blobs
  put_blobs-stores [] files d good = tt
  put_blobs-stores ((hash, contents) ∷ blobs) files d good =
      let kept = put sha256 writes root contents hash files in
      elim (Bool-cases (is_empty kept.0)) [
        | inl e ↦ absurd (cc (rw (e) at good))
        | inr e ↦
            let first : Stored root kept.1 hash = elim (Bool-cases (is_empty hash)) [
              | inl none_given ↦ inl none_given
              | inr given ↦ inr (put-stores sha256 writes root contents hash files d given e)
            ] in
            let goes_on : put_blobs sha256 writes root ((hash, contents) ∷ blobs) files
                ≡ put_blobs sha256 writes root blobs kept.1 =
              rw (e) refl in
            subst (λ z. Stored root z.1 hash × All (λ b. Stored root z.1 b.0) blobs) (sym goes_on)
              (
                Stored-put_blobs blobs kept.1 hash first,
                put_blobs-stores blobs kept.1 d (rw (e) at good),
              )
      ]
