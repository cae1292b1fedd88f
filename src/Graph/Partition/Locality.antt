-- ===== src/Graph/Partition/Locality.antt =====
-- The parts of an archive and of the objects that go into it.
use distcompile.Prelude.{
  ℕ, zero, suc, ◌+◌, ◌≤◌, ◌<◌, ◌≡◌, ◌≢◌, refl, ◌⊎◌, inl, inr, true, false, Option, none, some, List,
  [], ◌∷◌, map, arith, ◌&&◌, ◌==◌, Bool-cases, Option-cases, length, get_elem?,
}
use distcompile.Prelude.Counts.{count}
use distcompile.Prelude.Int.{ℤ, pos_part}
use native.Mathlib.Decide.{dec_lt}
use distcompile.Graph.{GraphTask, update}
use distcompile.Graph.Partition.{
  compile, archive, link, Claims, is_free, has_kind, claim_deps, claim_task, claim, claim_rest,
  claims, partition,
}

-- A number that was given is never taken back.
claim_deps-keeps :
    (t : List GraphTask) (u : ℕ) (ds : List ℤ) (unit : ℕ → Option ℕ) (j : ℕ) {v : ℕ}
    → unit j ≡ some v
    → claim_deps t u ds unit j ≡ some v
unfolding claim_deps
claim_deps-keeps t u [] unit j h = h
claim_deps-keeps t u (d ∷ ds) unit j h = claim_deps-keeps t u ds _ j (ground arith)

-- Task `i`, claimed with its free compile dependencies.
abbrev claimed : List GraphTask → ℕ → GraphTask → Claims → Claims
claimed t i x c = record {
  unit = claim_deps t c.units x.deps (update c.unit i (some c.units));
  units = c.units + 1;
}

data Claiming (t : List GraphTask) (kind i : ℕ) (c : Claims) : Claims → Type 0 where
  skips :
      {c' : Claims}
      → c' ≡ c
      → ((x : GraphTask) → get_elem? t i ≡ some x → x.kind ≡ kind → c.unit i ≢ none)
      → Claiming t kind i c c'
  takes :
      {c' : Claims} (x : GraphTask)
      → get_elem? t i ≡ some x
      → x.kind ≡ kind
      → c.unit i ≡ none
      → c' ≡ claimed t i x c
      → Claiming t kind i c c'

is_free-none : (o : Option ℕ) → is_free o ≡ true → o ≡ none
is_free-none none h = refl
is_free-none (some u) h = absurd (cc)

claim_task-Claiming :
    (t : List GraphTask) (kind i : ℕ) (c : Claims) → Claiming t kind i c (claim_task t kind i c)
unfolding claim_task
claim_task-Claiming t kind i c = elim (Option-cases (get_elem? t i)) [
  | inl e ↦ skips (rw (e, claim_task)) (λ x h. absurd (cc))
  | inr (x, e) ↦ elim (Bool-cases (x.kind == kind && is_free (c.unit i))) [
    | inl test ↦
        takes x e (ground arith) (is_free-none (c.unit i) (ground arith)) (rw (e, claim_task, test))
    | inr test ↦
        skips (rw (e, claim_task, test))
          (λ y h k free. let same : y ≡ x = ground arith in ground arith)
  ]
]

claim_task-keeps :
    (t : List GraphTask) (kind i : ℕ) (c : Claims) (j : ℕ) {v : ℕ}
    → c.unit j ≡ some v
    → (claim_task t kind i c).unit j ≡ some v
claim_task-keeps t kind i c j h = elim (claim_task-Claiming t kind i c) [
  | skips e _ ↦ rw e h
  | takes x _ _ free e ↦
      rw e (claim_deps-keeps t c.units x.deps (update c.unit i (some c.units)) j (ground arith))
]

claim-keeps :
    (t : List GraphTask) (kind k i : ℕ) (c : Claims) (j : ℕ) {v : ℕ}
    → c.unit j ≡ some v
    → (claim t kind k i c).unit j ≡ some v
unfolding claim
claim-keeps t kind zero i c j h = h
claim-keeps t kind (suc k) i c j h =
    claim-keeps t kind k (suc i) (claim_task t kind i c) j (claim_task-keeps t kind i c j h)

claim_rest-keeps :
    (k i : ℕ) (c : Claims) (j : ℕ) {v : ℕ} → c.unit j ≡ some v → (claim_rest k i c).unit j ≡ some v
unfolding claim_rest
claim_rest-keeps zero i c j h = h
claim_rest-keeps (suc k) i c j h = claim_rest-keeps k (suc i) _ j (ground arith)

claim_deps-leaves :
    (t : List GraphTask) (u : ℕ) (ds : List ℤ) (unit : ℕ → Option ℕ) (j : ℕ)
    → unit j ≡ none
    → (count j (map pos_part ds) ≡ 0) ⊎ (has_kind t compile j ≡ false)
    → claim_deps t u ds unit j ≡ none
unfolding claim_deps
claim_deps-leaves t u [] unit j h out = h
claim_deps-leaves t u (d ∷ ds) unit j h out =
    claim_deps-leaves t u ds _ j (ground arith) (ground arith)

claim_deps-takes :
    (t : List GraphTask) (u : ℕ) (ds : List ℤ) (unit : ℕ → Option ℕ) (j : ℕ)
    → unit j ≡ none
    → 0 < count j (map pos_part ds)
    → has_kind t compile j ≡ true
    → claim_deps t u ds unit j ≡ some u
unfolding claim_deps
claim_deps-takes t u [] unit j h m k = absurd (omega arith)
claim_deps-takes t u (d ∷ ds) unit j h m k = elim (Bool-cases (pos_part d == j)) [
  | inl here ↦ claim_deps-keeps t u ds _ j (ground arith)
  | inr other ↦ claim_deps-takes t u ds _ j (ground arith) (ground arith) k
]

-- What the theorem asks of archive `i` and task `d`: `d` is a compile task that `i` needs, and no
-- archive with a smaller id needs it.
pub record ClaimedFirst (t : List GraphTask) (i d : ℕ) : Type 0 where
  pub lib : GraphTask
  pub object : GraphTask
  pub at_i : get_elem? t i ≡ some lib
  pub at_d : get_elem? t d ≡ some object
  pub is_archive : lib.kind ≡ archive
  pub is_compile : object.kind ≡ compile
  pub needs : 0 < count d (map pos_part lib.deps)
  pub first :
      (j : ℕ) (x : GraphTask)
      → j < i
      → get_elem? t j ≡ some x
      → x.kind ≡ archive
      → count d (map pos_part x.deps) ≡ 0

module _ (t : List GraphTask) (i d : ℕ) (f : ClaimedFirst t i d) where
  open f use {lib, object, at_i, at_d, is_archive, is_compile, needs, first}

  abbrev Unclaimed : Claims → Type 0
  Unclaimed c = (c.unit i ≡ none) × (c.unit d ≡ none)

  abbrev Joined : Claims → Type 0
  Joined c = (u : ℕ) × (c.unit i ≡ some u) × (c.unit d ≡ some u)

  d_compile : has_kind t compile d ≡ true
  d_compile = ground arith

  i_other : has_kind t compile i ≡ false
  i_other = ground arith

  d≢i : d ≢ i
  d≢i e = cc (at_i, at_d, is_archive, is_compile)

  claim_task-joins : (c : Claims) → Unclaimed c → Joined (claim_task t archive i c)
  claim_task-joins c h = elim (claim_task-Claiming t archive i c) [
    | skips _ never ↦ absurd (never lib at_i is_archive h.0)
    | takes x e k _ after ↦
        let same : x ≡ lib = ground arith in
        let start = update c.unit i (some c.units) in
        rw after (
          c.units,
          claim_deps-keeps t c.units x.deps start i (ground arith),
          claim_deps-takes t c.units x.deps start d (ground (arith, d≢i)) (rw same needs) d_compile,
        )
  ]

  claim_task-skips :
      (j : ℕ) (c : Claims) → j < i → Unclaimed c → Unclaimed (claim_task t archive j c)
  claim_task-skips j c lt h = elim (claim_task-Claiming t archive j c) [
    | skips e _ ↦ rw e h
    | takes x e k _ after ↦
        let start = update c.unit j (some c.units) in
        let apart : j ≢ d = λ same. cc (at_d, is_compile, e, k) in
        rw after (
          claim_deps-leaves t c.units x.deps start i (ground arith) (inr i_other),
          claim_deps-leaves t c.units x.deps start d (ground arith) (inl (first j x lt e k)),
        )
  ]

  claim-joins :
      (k j : ℕ) (c : Claims) → j ≤ i → i < j + k → Unclaimed c → Joined (claim t archive k j c)
  unfolding claim
  claim-joins zero j c le lt h = absurd (omega arith)
  claim-joins (suc k) j c le lt h = elim (dec_lt j i) [
    | yes before ↦
        claim-joins k (suc j) (claim_task t archive j c) before (omega arith)
          (claim_task-skips j c before h)
    | no reached ↦
        let at : j ≡ i = omega arith in
        let (u, a, b) = claim_task-joins c h in
        rw at (
          u,
          claim-keeps t archive k (suc i) (claim_task t archive i c) i a,
          claim-keeps t archive k (suc i) (claim_task t archive i c) d b,
        )
  ]

  claims-joins : i < length t → Joined (claims t)
  unfolding claims
  claims-joins lt =
      let n = length t in
      let start : Claims = record { unit = λ i. none; units = 0 } in
      let (u, a, b) = claim-joins n 0 start (omega arith) (omega arith) (refl, refl) in
      let libs = claim t archive n 0 start in
      let bins = claim t link n 0 libs in
      (
        u,
        claim_rest-keeps n 0 bins i (claim-keeps t link n 0 libs i a),
        claim_rest-keeps n 0 bins d (claim-keeps t link n 0 libs d b),
      )

-- A compile task that an archive needs, and that no archive with a smaller id needs, is in the
-- same part as that archive.
pub partition-together :
    (t : List GraphTask) (parts i d : ℕ)
    → i < length t
    → ClaimedFirst t i d
    → partition t parts d ≡ partition t parts i
unfolding partition
partition-together t parts i d lt f = let (u, a, b) = claims-joins t i d f lt in ground arith
