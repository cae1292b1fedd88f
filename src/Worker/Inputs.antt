-- ===== src/Worker/Inputs.antt =====
-- The inputs that a worker puts in place for a program.
use distcompile.Prelude.{
  ◌≡◌, refl, sym, ap, subst, ◌∙◌, ◌⊎◌, inl, inr, Bool, true, false, Option, none, some, List, [],
  ◌∷◌, Text, arith, Bool-cases, Option-cases, is_empty, text_eq, text_eq→≡, text_eq_refl, All,
  length,
}
use distcompile.Util.{sha256_hex}
use distcompile.Cas.{is_some, Files, valid_hash, put, get, write}
use distcompile.Cas.Store.{IsDigest, IsSound, put-IsSound}
use distcompile.Rpc.{Outcome, is_success, with_retry}
use distcompile.Worker.{
  Host, Means, Verdict, keep_blob, fetch, fetch_inputs, default_attempts, has_slash,
}

-- A blob that was stored under an expected hash has it.
put-expected :
    (sha256 : Text → Text) (writes : Text → Bool) (root contents expect : Text) (files : Files)
    → is_empty expect ≡ false
    → is_empty (put sha256 writes root contents expect files).0 ≡ false
    → sha256_hex sha256 contents ≡ expect
unfolding put
put-expected sha256 writes root contents expect files given stored =
    elim (Bool-cases (text_eq expect (sha256_hex sha256 contents))) [
      | inl same ↦ sym (text_eq→≡ expect (sha256_hex sha256 contents) same)
      | inr other ↦ absurd (cc (rw (given, other, put) at stored))
    ]

get-genuine :
    (sha256 : Text → Text) (root digest contents : Text) (files : Files)
    → IsSound sha256 root files
    → get root files digest ≡ some contents
    → sha256_hex sha256 contents ≡ digest
unfolding get
get-genuine sha256 root digest contents files sound e = elim (Bool-cases (valid_hash digest)) [
  | inl valid ↦ sound digest contents valid (rw (valid, get) at e)
  | inr other ↦ absurd (cc (rw (other, get) at e))
]

-- Contents that have the digest they were asked for by, from a cache that stays sound.
pub record Genuine {ℓ} {Net : Type ℓ} (means : Means Net) (digest : Text) (h : Host Net)
    (out : Option Text × Host Net) : Type ℓ where
  pub sound : IsSound means.sha256 means.root out.1.cache
  pub hash : (contents : Text) → out.0 ≡ some contents → sha256_hex means.sha256 contents ≡ digest
  pub same_dir : out.1.dir ≡ h.dir

module _ {ℓ} {Net : Type ℓ} (means : Means Net) (d : IsDigest means.sha256) where
  keep_blob-Genuine :
      (digest : Text) (out : Outcome (Net × Text)) (h : Host Net)
      → is_empty digest ≡ false
      → IsSound means.sha256 means.root h.cache
      → Genuine means digest h (keep_blob means digest out h)
  unfolding keep_blob
  keep_blob-Genuine digest out h given sound =
      let blob = out.world.1 in
      let kept = put means.sha256 means.cache_writes means.root blob digest h.cache in
      let sound' =
        put-IsSound means.sha256 means.cache_writes means.root blob digest h.cache d sound in
      elim (Bool-cases (is_success out.status.code)) [
        | inr failed ↦
            rw (failed, keep_blob)
              (record { sound = sound; hash = λ c e. absurd (cc); same_dir = refl })
        | inl good ↦ elim (Bool-cases (is_empty kept.0)) [
          | inl refused ↦
              rw (good, refused, keep_blob)
                (record { sound = sound'; hash = λ c e. absurd (cc); same_dir = refl })
          | inr stored ↦
              rw (good, stored, keep_blob)
                (record {
                  sound = sound';
                  hash = λ c e.
                      let same : blob ≡ c = cc e in
                      subst (λ z. sha256_hex means.sha256 z ≡ digest) same
                        (put-expected means.sha256 means.cache_writes means.root blob digest h.cache
                          given stored);
                  same_dir = refl;
                })
        ]
      ]

  -- Whatever the coordinator and the network answer, an input that `fetch` delivers has the digest
  -- that was asked for, where SHA-256 gives 32 bytes, the digest is not empty, and the cache held
  -- only blobs with their hashes; and it still does.
  pub fetch-Genuine :
      (digest : Text) (h : Host Net)
      → is_empty digest ≡ false
      → IsSound means.sha256 means.root h.cache
      → Genuine means digest h (fetch means digest h)
  unfolding fetch
  fetch-Genuine digest h given sound = elim (Option-cases (get means.root h.cache digest)) [
    | inr (contents, hit) ↦
        rw (hit, fetch)
          (record {
            sound = sound;
            hash = λ c e.
                let same : contents ≡ c = cc e in
                subst (λ z. sha256_hex means.sha256 z ≡ digest) same
                  (get-genuine means.sha256 means.root digest contents h.cache sound hit);
            same_dir = refl;
          })
    | inl miss ↦
        rw (miss, fetch)
          (keep_blob-Genuine digest
            (with_retry (means.get_blob digest) default_attempts (h.net, [])) h given sound)
  ]

write-some :
    (files : Files) (path contents n : Text)
    → is_some (files n) ≡ true
    → is_some (write files path contents n) ≡ true
write-some files path contents n h = ground arith

-- The contents have the digest of an input of this name, which lies in the directory itself.
abbrev pub IsInput : (Text → Text) → List Text → List Text → Text → Text → Type 0
IsInput sha256 [] names n contents = false ≡ true
IsInput sha256 (d ∷ digests) [] n contents = false ≡ true
IsInput sha256 (d ∷ digests) (name ∷ names) n contents =
    ((n ≡ name) × (has_slash n ≡ false) × (sha256_hex sha256 contents ≡ d))
    ⊎ IsInput sha256 digests names n contents

-- What the loop over the inputs leaves.
pub record Placed {ℓ} {Net : Type ℓ} (means : Means Net) (digests names : List Text) (h : Host Net)
    (out : Option Verdict × Host Net) : Type ℓ where
  pub sound : IsSound means.sha256 means.root out.1.cache
  pub files :
      (n contents : Text)
      → out.1.dir n ≡ some contents
      → h.dir n ≡ some contents ⊎ IsInput means.sha256 digests names n contents
  pub kept : out.0 ≡ none → (n : Text) → is_some (h.dir n) ≡ true → is_some (out.1.dir n) ≡ true
  pub present :
      out.0 ≡ none → length digests ≡ length names → All (λ n. is_some (out.1.dir n) ≡ true) names

module _ {ℓ} {Net : Type ℓ} (means : Means Net) where
  -- A loop that leaves the directory as it found it.
  early-Placed :
      (digests names : List Text) (h h' : Host Net) (v : Option Verdict)
      → IsSound means.sha256 means.root h'.cache
      → h'.dir ≡ h.dir
      → (v ≡ none → length digests ≡ length names → names ≡ [])
      → Placed means digests names h (v, h')
  early-Placed digests names h h' v sound same nobody = record {
    sound = sound;
    files = λ n c e. inl (subst (λ dir. dir n ≡ some c) same e);
    kept = λ e n present. subst (λ dir. is_some (dir n) ≡ true) (sym same) present;
    present = λ e l. subst (All (λ n. is_some (h'.dir n) ≡ true)) (sym (nobody e l)) tt;
  }

  -- An input put in place before the rest.
  next-Placed :
      (digest name contents : Text) (digests names : List Text) (h h' : Host Net)
      (out : Option Verdict × Host Net)
      → h'.dir ≡ h.dir
      → has_slash name ≡ false
      → sha256_hex means.sha256 contents ≡ digest
      → Placed means digests names (record h' { dir = write h'.dir name contents }) out
      → Placed means (digest ∷ digests) (name ∷ names) h out
  next-Placed digest name contents digests names h h' out same inside hash p = record {
    sound = p.sound;
    files = λ n c e. elim (p.files n c e) [
      | inr later ↦ inr (inr later)
      | inl before ↦ elim (Bool-cases (text_eq n name)) [
        | inl here ↦
            let written : some contents ≡ some c = rw here at before in
            let whole : contents ≡ c = cc written in
            let at_name = text_eq→≡ n name here in
            inr (
              inl (
                at_name,
                ap has_slash at_name ∙ inside,
                subst (λ z. sha256_hex means.sha256 z ≡ digest) whole hash,
              ))
        | inr other ↦ inl (subst (λ dir. dir n ≡ some c) same (rw other at before))
      ]
    ];
    kept = λ e n present. p.kept e n (
        write-some h'.dir name contents n
          (subst (λ dir. is_some (dir n) ≡ true) (sym same) present));
    present = λ e l. (p.kept e name (rw (text_eq_refl name) refl), p.present e (omega arith));
  }

  -- The loop over the inputs leaves the cache sound, and puts no file into the directory but inputs
  -- under one of their names, without a slash, with the digest that the coordinator gave; when it
  -- ends without a verdict, every name has a file. (SHA-256 gives 32 bytes, no digest is empty, and
  -- the cache held only blobs with their hashes.)
  pub fetch_inputs-Placed :
      (digests names : List Text) (h : Host Net)
      → IsDigest means.sha256
      → All (λ d. is_empty d ≡ false) digests
      → IsSound means.sha256 means.root h.cache
      → Placed means digests names h (fetch_inputs means digests names h)
  unfolding fetch_inputs
  fetch_inputs-Placed [] [] h d given sound = early-Placed [] [] h h none sound refl (λ e l. refl)
  fetch_inputs-Placed [] (n ∷ names) h d given sound =
      early-Placed [] (n ∷ names) h h none sound refl (λ e l. absurd (omega arith))
  fetch_inputs-Placed (i ∷ digests) [] h d given sound =
      early-Placed (i ∷ digests) [] h h none sound refl (λ e l. refl)
  fetch_inputs-Placed (i ∷ digests) (n ∷ names) h d given sound =
      let g = fetch-Genuine means d i h given.0 sound in
      let h' = (fetch means i h).1 in
      let stop = λ (v : Verdict).
        early-Placed (i ∷ digests) (n ∷ names) h h' (some v) g.sound g.same_dir
          (λ e l. absurd (cc e)) in
      elim (Option-cases (fetch means i h).0) [
        | inl missing ↦ rw (missing, fetch_inputs) (stop _)
        | inr (contents, got) ↦ elim (Bool-cases (has_slash n)) [
          | inl outside ↦ rw (got, outside, fetch_inputs) (stop _)
          | inr inside ↦ elim (Bool-cases (means.dir_writes n)) [
            | inr full ↦ rw (got, inside, full, fetch_inputs) (stop _)
            | inl taken ↦
                rw (got, inside, taken, fetch_inputs)
                  (next-Placed i n contents digests names h h' _ g.same_dir inside
                    (g.hash contents got)
                    (fetch_inputs-Placed digests names (record h' { dir = write h'.dir n contents })
                      d given.1 g.sound))
          ]
        ]
      ]
