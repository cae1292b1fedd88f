-- ===== src/Client/Upload/Among.antt =====
-- Sets of digests that are kept as lists, and what stands in a batch.
use distcompile.Prelude.{
  ◌≡◌, refl, sym, subst, ◌⊎◌, inl, inr, Bool, true, false, ◌||◌, List, [], ◌∷◌, ◌++◌, map, Text,
  arith, Bool-cases, text_eq, text_eq→≡, text_eq_refl, is_among, All,
}
use distcompile.Cas.{Files, has, find_missing}
use distcompile.Client.{TransUnit}
use distcompile.Client.Upload.{erase, needed}

pub List-cases {ℓ} :
    {A : Type ℓ} (xs : List A) → (xs ≡ []) ⊎ ((x : A) × (rest : List A) × (xs ≡ x ∷ rest))
List-cases [] = inl refl
List-cases (x ∷ xs) = inr (x, xs, refl)

pub among-All {ℓ} :
    (Q : Text → Type ℓ) (k : Text) (bs : List (Text × Text))
    → is_among k (map (λ b. b.0) bs) ≡ true
    → All (λ b. Q b.0) bs
    → Q k
among-All Q k [] e all = absurd (cc)
among-All Q k (b ∷ bs) e all = elim (Bool-cases (text_eq k b.0)) [
  | inl same ↦ subst Q (sym (text_eq→≡ k b.0 same)) all.0
  | inr apart ↦ among-All Q k bs (rw (apart) at e) all.1
]

pub among-left :
    (k : Text) (bs cs : List (Text × Text))
    → is_among k (map (λ b. b.0) bs) ≡ true
    → is_among k (map (λ b. b.0) (bs ++ cs)) ≡ true
among-left k [] cs e = absurd (cc)
among-left k (b ∷ bs) cs e = ground (arith, among-left k bs cs)

pub among-last :
    (k text : Text) (bs : List (Text × Text))
    → is_among k (map (λ b. b.0) (bs ++ (k, text) ∷ [])) ≡ true
among-last k text [] = rw (text_eq_refl k) refl
among-last k text (b ∷ bs) = ground (arith, among-last k text bs)

pub among-erase :
    (k j : Text) (keys : List Text)
    → text_eq k j ≡ false
    → is_among k keys ≡ true
    → is_among k (erase j keys) ≡ true
unfolding erase
among-erase k j [] apart e = absurd (cc)
among-erase k j (i ∷ keys) apart e = elim (Bool-cases (text_eq j i)) [
  | inl same ↦
      let at = text_eq→≡ j i same in
      let other : text_eq k i ≡ false = subst (λ z. text_eq k z ≡ false) at apart in
      rw (same) (among-erase k j keys apart (rw (other) at e))
  | inr differs ↦ rw (differs) (elim (Bool-cases (text_eq k i)) [
    | inl found ↦ rw (found) refl
    | inr further ↦ rw (further) (among-erase k j keys apart (rw (further) at e))
  ])
]

-- What is to be sent is not the digest of a unit that is not.
pub among-tail :
    (k digest : Text) (need : List TransUnit) (to_send : List Text)
    → is_among digest to_send ≡ false
    → is_among k to_send ≡ true
    → text_eq k digest || is_among k (map (λ u. u.digest) need) ≡ true
    → is_among k (map (λ u. u.digest) need) ≡ true
among-tail k digest need to_send other wanted among = elim (Bool-cases (text_eq k digest)) [
  | inl same ↦
      absurd (cc (subst (λ z. is_among z to_send ≡ true) (text_eq→≡ k digest same) wanted, other))
  | inr apart ↦ rw (apart) at among
]

pub among-find_missing :
    (root : Text) (files : Files) (k : Text) (want : List Text)
    → has root files k ≡ false
    → is_among k want ≡ true
    → is_among k (find_missing root files want) ≡ true
unfolding find_missing
among-find_missing root files k [] miss e = absurd (cc)
among-find_missing root files k (h ∷ want) miss e = elim (Bool-cases (text_eq k h)) [
  | inl same ↦
      let there : has root files h ≡ false =
        subst (λ z. has root files z ≡ false) (text_eq→≡ k h same) miss in
      rw (there, same) refl
  | inr apart ↦
      let rest = among-find_missing root files k want miss (rw (apart) at e) in
      elim (Bool-cases (has root files h)) [
        | inl there ↦ rw (there) rest
        | inr gone ↦ rw (gone, apart) rest
      ]
]

pub All-among {ℓ} :
    (Q : Text → Type ℓ) (need : List TransUnit)
    → ((k : Text) → is_among k (map (λ u. u.digest) need) ≡ true → Q k)
    → All (λ u. Q u.digest) need
All-among Q [] h = tt
All-among Q (u ∷ need) h = (
  h u.digest (rw (text_eq_refl u.digest) refl),
  All-among Q need (λ k e. h k (or-right (text_eq k u.digest) e)),
)
  where
    or-right : (a : Bool) {b : Bool} → b ≡ true → a || b ≡ true
    or-right true e = refl
    or-right false e = e

-- The units whose keys are not among the hits are the ones that are needed.
pub All-needed {ℓ} :
    (Q : TransUnit → Type ℓ) (load : TransUnit → TransUnit) (cached : List Text)
    (units : List TransUnit)
    → All Q (map load (needed cached units))
    → All (λ u. (is_among u.key cached ≡ true) ⊎ Q (load u)) units
unfolding needed
All-needed Q load cached [] h = tt
All-needed Q load cached (u ∷ units) h = elim (Bool-cases (is_among u.key cached)) [
  | inl hit ↦ (inl hit, All-needed Q load cached units (rw (hit) at h))
  | inr miss ↦
      let h' : Q (load u) × All Q (map load (needed cached units)) = rw (miss) at h in
      (inr h'.0, All-needed Q load cached units h'.1)
]
