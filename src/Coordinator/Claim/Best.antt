-- ===== src/Coordinator/Claim/Best.antt =====
-- Which task a claim hands out.
use distcompile.Prelude.{
  ℕ, zero, suc, ◌+◌, ◌*◌, ◌≤◌, ◌<◌, ◌≡◌, ◌≢◌, refl, ap, subst, ◌∙◌, ◌⊎◌, inl, inr, Bool, true,
  false, ◌&&◌, not, none, some, List, [], ◌∷◌, arith, Bool-cases, Option-cases, All, All-split,
  All-map,
}
use native.Mathlib.Decide.{ℕ_discrete}
use distcompile.Prelude.Int.{ℤ, pos, negsuc, ◌≤ℤ◌, ltb_ℤ}
use distcompile.Coordinator.Rows.{Task, Build, is_ready}
use distcompile.Coordinator.Claim.{
  is_part, Db, Uid, row_at, set_row, uids_of, all_uids, ClaimRequest, is_eligible, pick,
  running_row, may_claim, may_claim_own, choose, try_claim,
}

-- A pick passes the test, and no other row that passes it has a higher priority.
pub record IsBest (row : Uid → Task) (test : Uid → Bool) (us : List Uid) (u : Uid) : Type 0 where
  pub passes : test u ≡ true
  pub highest : All (λ v. test v ≡ true → (row v).priority ≤ℤ (row u).priority) us

pick-none :
    (row : Uid → Task) (test : Uid → Bool) (us : List Uid)
    → pick row test us ≡ none
    → All (λ v. test v ≡ false) us
unfolding pick
pick-none row test [] h = tt
pick-none row test (x ∷ us) h = (ground arith, pick-none row test us (ground arith))

abbrev LowerThan : (Uid → Task) → (Uid → Bool) → Uid → Uid → Type 0
LowerThan row test u v = test v ≡ true → (row v).priority ≤ℤ (row u).priority

pick-IsBest :
    (row : Uid → Task) (test : Uid → Bool) (us : List Uid) (u : Uid)
    → pick row test us ≡ some u
    → IsBest row test us u
unfolding pick
pick-IsBest row test [] u h = absurd (cc)
pick-IsBest row test (x ∷ us) u h = elim (Option-cases (pick row test us)) [
  | inl e ↦
      let same : x ≡ u = ground arith in
      record {
        passes = ground arith;
        highest = (
          λ t. rw same (omega arith),
          All-map (λ v fails passes. absurd (cc)) us (pick-none row test us e),
        );
      }
  | inr (v, e) ↦
      let rest = pick-IsBest row test us v e in
      elim (Bool-cases (test x && not (ltb_ℤ (row x).priority (row v).priority))) [
        | inl first ↦
            let same : u ≡ x = ground arith in
            rw same (record {
              passes = ground arith;
              highest = (
                λ t. omega arith,
                All-map (λ w below t. ground (arith, below t)) us rest.highest,
              );
            })
        | inr later ↦
            let same : u ≡ v = ground arith in
            rw same (record { passes = rest.passes; highest = (λ t. ground arith, rest.highest) })
      ]
]

-- Every row of the tables is among those that are looked at.
abbrev pub Exists : Db → Uid → Type 0
Exists db u = (u.build < db.next_build) × (u.id < (db.builds u.build).total)

module _ {ℓ} (P : Uid → Type ℓ) where
  uids_of-All :
      (b k i j : ℕ) → All P (uids_of b k i) → i ≤ j → j < i + k → P (record { build = b; id = j })
  unfolding uids_of
  uids_of-All b zero i j h le lt = absurd (omega arith)
  uids_of-All b (suc k) i j h le lt = elim (ℕ_discrete i j) [
    | yes here ↦ subst (λ m. P (record { build = b; id = m })) here h.0
    | no there ↦ uids_of-All b k (suc i) j h.1 (omega arith) (omega arith)
  ]

  all_uids-All :
      (builds : ℕ → Build) (k b : ℕ) (u : Uid)
      → All P (all_uids builds k b)
      → b ≤ u.build
      → u.build < b + k
      → u.id < (builds u.build).total
      → P u
  unfolding all_uids
  all_uids-All builds zero b u h le lt below = absurd (omega arith)
  all_uids-All builds (suc k) b u h le lt below =
      let parts = All-split P (uids_of b (builds b).total 0) (all_uids builds k (suc b)) h in
      elim (ℕ_discrete b u.build) [
        | yes here ↦
            uids_of-All u.build (builds u.build).total 0 u.id
              (subst (λ m. All P (uids_of m (builds m).total 0)) here parts.0) (omega arith)
              (omega arith)
        | no there ↦ all_uids-All builds k (suc b) u parts.1 (omega arith) (omega arith) below
      ]

is_part-same : (p : ℤ) (n : ℕ) → is_part p n ≡ true → pos n ≡ p
is_part-same (pos p) n h = let same : n ≡ p = ground arith in ap pos same
is_part-same (negsuc p) n h = absurd (cc h)

same-is_part : (p : ℤ) (n : ℕ) → pos n ≡ p → is_part p n ≡ true
same-is_part (pos p) n e = let same : n ≡ p = cc e in ground (arith, same)
same-is_part (negsuc p) n e = absurd (cc e)

-- What a claim promises: an eligible row that nobody else holds, of the own partition if that has
-- one, and with the highest priority of those it was chosen from.
pub record Claimed (q : ClaimRequest) (lease_s now : ℕ) (locked : Uid → Bool) (db : Db) (u : Uid)
    (db' : Db) : Type 0 where
  pub eligible : is_eligible q now (row_at db u) ≡ true
  pub unlocked : locked u ≡ false
  pub written : db' ≡ set_row db u (running_row q.worker (now + lease_s * 1000) (row_at db u))
  pub own_first :
      (v : Uid)
      → Exists db v
      → may_claim_own q lease_s now locked db v ≡ true
      → (pos (row_at db u).part ≡ q.part) × ((row_at db v).priority ≤ℤ (row_at db u).priority)
  pub best :
      (pos (row_at db u).part ≢ q.part)
      → (v : Uid) → Exists db v
      → may_claim q lease_s now locked db v ≡ true
      → (row_at db v).priority ≤ℤ (row_at db u).priority

module _ (q : ClaimRequest) (lease_s now : ℕ) (locked : Uid → Bool) (db : Db) where
  abbrev looked_at : List Uid
  looked_at = all_uids db.builds db.next_build 0

  looked_at-All : (P : Uid → Type 0) (v : Uid) → All P looked_at → Exists db v → P v
  looked_at-All P v h e =
      all_uids-All P db.builds db.next_build 0 v h (omega arith) (omega arith) e.1

  abbrev own_test : Uid → Bool
  own_test = may_claim_own q lease_s now locked db

  abbrev any_test : Uid → Bool
  any_test = may_claim q lease_s now locked db

  own-any : (v : Uid) → own_test v ≡ true → any_test v ≡ true
  own-any v h = ground arith

  own-part : (v : Uid) → own_test v ≡ true → pos (row_at db v).part ≡ q.part
  own-part v h = is_part-same q.part (row_at db v).part (ground arith)

  any-own : (v : Uid) → any_test v ≡ true → pos (row_at db v).part ≡ q.part → own_test v ≡ true
  any-own v h e = let own = same-is_part q.part (row_at db v).part e in ground (arith, own)

  any-facts :
      (v : Uid) → any_test v ≡ true → (is_eligible q now (row_at db v) ≡ true) × (locked v ≡ false)
  any-facts v h = ground arith

  -- What `choose` returns, by the query that found it.
  abbrev FoundBy : Uid → Type 0
  FoundBy u =
      IsBest (row_at db) own_test looked_at u
      ⊎ (All (λ v. own_test v ≡ false) looked_at × IsBest (row_at db) any_test looked_at u)

  choose-FoundBy : (u : Uid) → choose q lease_s now locked db ≡ some u → FoundBy u
  unfolding choose
  choose-FoundBy u h = elim (Option-cases (pick (row_at db) own_test looked_at)) [
    | inr (v, e) ↦ inl (pick-IsBest (row_at db) own_test looked_at u (ground arith))
    | inl e ↦ inr (
      pick-none (row_at db) own_test looked_at e,
      pick-IsBest (row_at db) any_test looked_at u (ground arith),
    )
  ]

  choose-none : choose q lease_s now locked db ≡ none → All (λ v. any_test v ≡ false) looked_at
  unfolding choose
  choose-none h = pick-none (row_at db) any_test looked_at (ground arith)

  FoundBy-Claimed :
      (u : Uid) (db' : Db)
      → db' ≡ set_row db u (running_row q.worker (now + lease_s * 1000) (row_at db u))
      → FoundBy u
      → Claimed q lease_s now locked db u db'
  FoundBy-Claimed u db' e (inl own) =
      let facts = any-facts u (own-any u own.passes) in
      record {
        eligible = facts.0;
        unlocked = facts.1;
        written = e;
        own_first = λ v there t. (
          own-part u own.passes,
          looked_at-All (LowerThan (row_at db) own_test u) v own.highest there t,
        );
        best = λ other. absurd (other (own-part u own.passes));
      }
  FoundBy-Claimed u db' e (inr (no_own, any)) =
      let facts = any-facts u any.passes in
      record {
        eligible = facts.0;
        unlocked = facts.1;
        written = e;
        own_first =
            λ v there t. absurd (cc (looked_at-All (λ w. own_test w ≡ false) v no_own there));
        best = λ other v there t.
            looked_at-All (LowerThan (row_at db) any_test u) v any.highest there t;
      }

-- What a claim hands out: a ready task for this toolchain, which was not last failed by this
-- worker, or more than 3 s ago, and which nobody else is claiming, of the worker's own partition
-- if that has such a task; of those it was chosen from it has the highest priority. Its row is
-- written, and no other.
pub try_claim-Claimed :
    (q : ClaimRequest) (lease_s now : ℕ) (locked : Uid → Bool) (db db' : Db) (u : Uid)
    → try_claim q lease_s now locked db ≡ some (u, db')
    → Claimed q lease_s now locked db u db'
unfolding try_claim
try_claim-Claimed q lease_s now locked db db' u h =
    elim (Option-cases (choose q lease_s now locked db)) [
      | inl e ↦ absurd (cc (rw (e, try_claim) at h))
      | inr (v, e) ↦
          FoundBy-Claimed q lease_s now locked db u db' (ground arith)
            (choose-FoundBy q lease_s now locked db u (ground arith))
    ]

-- When a claim finds nothing, no existing row could have been handed out.
pub try_claim-none :
    (q : ClaimRequest) (lease_s now : ℕ) (locked : Uid → Bool) (db : Db) (v : Uid)
    → try_claim q lease_s now locked db ≡ none
    → Exists db v
    → may_claim q lease_s now locked db v ≡ false
unfolding try_claim
try_claim-none q lease_s now locked db v h there =
    looked_at-All q lease_s now locked db (λ w. may_claim q lease_s now locked db w ≡ false) v
      (choose-none q lease_s now locked db (ground arith)) there

set_row-not_ready :
    (db : Db) (u : Uid) (x : Task)
    → is_ready x.state ≡ false
    → is_ready (row_at (set_row db u x) u).state ≡ false
set_row-not_ready db u x e = ground arith

eligible-ready :
    (q : ClaimRequest) (now : ℕ) (x : Task) → is_eligible q now x ≡ true → is_ready x.state ≡ true
unfolding is_eligible
eligible-ready q now x h = ground arith

-- Two claims, one after the other, never hand out the same row.
pub try_claim-ne :
    (q q' : ClaimRequest) (lease_s now now' : ℕ) (locked locked' : Uid → Bool) (db db' db'' : Db)
    (u u' : Uid)
    → try_claim q lease_s now locked db ≡ some (u, db')
    → try_claim q' lease_s now' locked' db' ≡ some (u', db'')
    → u ≢ u'
unfolding is_eligible running_row
try_claim-ne q q' lease_s now now' locked locked' db db' db'' u u' h h' same =
    let first = try_claim-Claimed q lease_s now locked db db' u h in
    let second = try_claim-Claimed q' lease_s now' locked' db' db'' u' h' in
    let claimed : is_ready (row_at db' u).state ≡ false =
      ap (λ d. is_ready (row_at d u).state) first.written
      ∙ set_row-not_ready db u (running_row q.worker (now + lease_s * 1000) (row_at db u)) refl in
    cc (
      claimed,
      eligible-ready q' now' (row_at db' u') second.eligible,
      ap (λ v. is_ready (row_at db' v).state) same,
    )
