-- ===== src/Coordinator/Submit/Counters.antt =====
-- The counters that the loop over `order` gives the rows of a new build.
use distcompile.Prelude.{
  ok-injective, update, ℕ, ◌+◌, ◌<◌, ◌≤◌, ◌≡◌, refl, sym, ap, ◌∙◌, subst, inl, inr, Bool, true,
  false, not, Option, some, List, [], ◌∷◌, map, Text, arith, ltb, ◌==◌, ==_iff, if◌then◌else◌,
  is_empty, is_among, All, ok, >>=-eq-ok, Bool-cases, Option-cases,
}
use distcompile.Prelude.Counts.{count}
use distcompile.Prelude.Int.{ℤ, pos_part}
use distcompile.Graph.Kahn.{IsOrdered}
use distcompile.Coordinator.Finish.Filled.{IsFilled}
use distcompile.Coordinator.Rows.{Cache, is_finished, is_waiting}
use distcompile.Coordinator.Submit.{
  TaskSpec, Draft, Drafts, Known, is_compile, known_deps, key_draft, cached_output, first_hits,
  more_hits, settle, visit, visit_all,
}

abbrev HitsFilled : (Text → Option Text) → Type 0
HitsFilled hits = (k o : Text) → hits k ≡ some o → is_empty o ≡ false

-- How many of these tasks have no output yet.
abbrev pub open_deps : (ℕ → Draft) → List ℕ → ℕ
open_deps row [] = 0
open_deps row (d ∷ ds) = (if is_finished (row d).state then 0 else 1) + open_deps row ds

abbrev HasOutput : Draft → Type 0
HasOutput d = is_finished d.state ≡ not (is_empty d.output)

known_deps-pending :
    (spec : ℕ → TaskSpec) (row : ℕ → Draft) (ds : List ℤ)
    → ((i : ℕ) → HasOutput (row i))
    → (known_deps spec row ds).pending ≡ open_deps row (map pos_part ds)
unfolding known_deps
known_deps-pending spec row [] h = refl
known_deps-pending spec row (d ∷ ds) h =
    ground (arith, h (pos_part d), known_deps-pending spec row ds h)

-- A write elsewhere.
open_deps-update :
    (row : ℕ → Draft) (id : ℕ) (r : Draft) (ds : List ℕ)
    → count id ds ≡ 0
    → open_deps (update row id r) ds ≡ open_deps row ds
open_deps-update row id r [] h = refl
open_deps-update row id r (d ∷ ds) h = ground (arith, open_deps-update row id r ds)

cached_output-filled : (cache : Cache) → IsFilled cache → HitsFilled (cached_output cache)
cached_output-filled cache f k o e = elim (Option-cases (cache k)) [
  | inl n ↦ absurd (cc (rw (n, cached_output) at e))
  | inr (r, y) ↦ subst (λ z. is_empty z ≡ false) (cc (rw (y, cached_output) at e)) (f k r y)
]

pub first_hits-filled :
    (cache : Cache) (keys : List Text) → IsFilled cache → HitsFilled (first_hits cache keys)
first_hits-filled cache keys f k o e = elim (Bool-cases (is_among k keys)) [
  | inl y ↦ cached_output-filled cache f k o (rw y at e)
  | inr n ↦ absurd (cc (rw n at e))
]

more_hits-filled :
    (cache : Cache) (ts : TaskSpec) (d : Draft) (hits : Text → Option Text)
    → IsFilled cache
    → HitsFilled hits
    → HitsFilled (more_hits cache ts d hits)
unfolding more_hits
more_hits-filled cache ts d hits f h k o e = elim (Option-cases (hits k)) [
  | inr (p, y) ↦ ground (arith, h k p y, e)
  | inl n ↦ elim (Option-cases (cached_output cache k)) [
    | inl m ↦ absurd (ground (arith, e, n, m))
    | inr (p, y) ↦ ground (arith, cached_output-filled cache f k p y, e, n)
  ]
]

-- A result is not an error.
-- What `settle` makes of a draft.
record Placed (d r : Draft) : Type 0 where
  pending : r.pending ≡ d.pending
  output : HasOutput r
  waits : is_waiting r.state ≡ ltb 0 r.pending

settle-Placed :
    (blob : Text → Bool) (ts : TaskSpec) (d r : Draft) (hit : Option Text)
    → d.output ≡ []
    → (is_empty d.key ≡ false → d.pending ≡ 0)
    → ((o : Text) → hit ≡ some o → is_empty o ≡ false)
    → settle blob ts d hit ≡ ok r
    → Placed d r
unfolding settle
settle-Placed blob ts d r hit blank keyed filled e = elim (Bool-cases (is_empty d.key)) [
  | inl none_yet ↦ record {
    pending = ground (arith, e, none_yet);
    output = ground (arith, e, none_yet, blank);
    waits = ground (arith, e, none_yet);
  }
  | inr key ↦ elim (Option-cases hit) [
    | inl miss ↦ record {
      pending = ground (arith, e, key, miss);
      output = ground (arith, e, key, miss, blank);
      waits = ground (arith, e, key, miss);
    }
    | inr (o, y) ↦ record {
      pending = ground (arith, e, key, y);
      output = ground (arith, e, key, y, filled o y);
      waits = ground (arith, e, key, y, keyed key);
    }
  ]
]

-- A row behind the loop's visit: its counter is the number of its open dependencies, all of which
-- the loop has visited.
pub record Visited (spec : ℕ → TaskSpec) (row : ℕ → Draft) (seen : List ℕ) (i : ℕ) : Type 0 where
  pub pending : (row i).pending ≡ open_deps row (map pos_part (spec i).deps)
  pub waits : is_waiting (row i).state ≡ ltb 0 (row i).pending
  pub behind : All (λ d. 0 < count d seen) (map pos_part (spec i).deps)

pub record Loop (spec : ℕ → TaskSpec) (seen : List ℕ) (s : Drafts) : Type 0 where
  pub outputs : (i : ℕ) → HasOutput (s.row i)
  pub hits : HitsFilled s.hits
  pub visited : (i : ℕ) → 0 < count i seen → Visited spec s.row seen i

-- A list of visited tasks does not hold one that is not.
not_among :
    (id : ℕ) (seen ds : List ℕ)
    → count id seen ≡ 0
    → All (λ d. 0 < count d seen) ds
    → count id ds ≡ 0
not_among id seen [] h a = refl
not_among id seen (d ∷ ds) h a = ground (arith, a.0, h, not_among id seen ds h a.1)

more_seen :
    (id : ℕ) (seen ds : List ℕ)
    → All (λ d. 0 < count d seen) ds
    → All (λ d. 0 < count d (id ∷ seen)) ds
more_seen id seen [] a = tt
more_seen id seen (d ∷ ds) a = (omega (arith, a.0), more_seen id seen ds a.1)

module _ (sha256 : Text → Text) (toolchain : Text) (spec : ℕ → TaskSpec) (blob : Text → Bool)
    (cache : Cache) (filled : IsFilled cache)
    (leaf : (i : ℕ) → is_compile (spec i) ≡ true → (spec i).deps ≡ []) where
  key_draft-facts :
      (ts : TaskSpec) (k : Known)
      → (is_compile ts ≡ true → k.pending ≡ 0)
      → let d = key_draft sha256 toolchain spec ts k in
        (d.output ≡ []) × (d.pending ≡ k.pending) × (is_empty d.key ≡ false → d.pending ≡ 0)
  unfolding key_draft
  key_draft-facts ts k leaf_ts = elim (Bool-cases (is_compile ts)) [
    | inl y ↦ rw y (refl, refl, λ e. leaf_ts y)
    | inr n ↦ elim (Bool-cases (k.pending == 0)) [
      | inl z ↦ rw (n, z) (refl, sym ((==_iff k.pending 0).0 z), λ e. refl)
      | inr m ↦ rw (n, m) (refl, refl, λ e. absurd (cc (e)))
    ]
  ]

  leaf-pending :
      (id : ℕ) (row : ℕ → Draft)
      → is_compile (spec id) ≡ true
      → (known_deps spec row (spec id).deps).pending ≡ 0
  unfolding known_deps
  leaf-pending id row c = rw (leaf id c)

  visit-row :
      (id : ℕ) (seen : List ℕ) (s s' : Drafts)
      → Loop spec seen s
      → visit sha256 toolchain spec blob cache id s ≡ ok s'
      → (r : Draft) × (d : Draft) × Placed d r
        × (d.pending ≡ open_deps s.row (map pos_part (spec id).deps))
        × (s'.row ≡ update s.row id r)
        × HitsFilled s'.hits
  unfolding visit
  visit-row id seen s s' l e =
      let ts = spec id in
      let k = known_deps spec s.row ts.deps in
      let d = key_draft sha256 toolchain spec ts k in
      let hits = more_hits cache ts d s.hits in
      let facts = key_draft-facts ts k (leaf-pending id s.row) in
      let (r, settled, same) = >>=-eq-ok (settle blob ts d (hits d.key)) _ e in
      let hits_filled = more_hits-filled cache ts d s.hits filled l.hits in
      (
        r,
        d,
        settle-Placed blob ts d r (hits d.key) facts.0 facts.2 (hits_filled d.key) settled,
        facts.1 ∙ known_deps-pending spec s.row ts.deps l.outputs,
        ap (λ z. z.row) (sym (ok-injective same)),
        subst (λ z. HitsFilled z.hits) (ok-injective same) hits_filled,
      )

  Visited-now :
      (id : ℕ) (seen : List ℕ) (row : ℕ → Draft) (d r : Draft)
      → count id seen ≡ 0
      → All (λ d. 0 < count d seen) (map pos_part (spec id).deps)
      → Placed d r
      → d.pending ≡ open_deps row (map pos_part (spec id).deps)
      → Visited spec (update row id r) (id ∷ seen) id
  Visited-now id seen row d r new behind placed waits_for =
      let ds = map pos_part (spec id).deps in
      let self : update row id r id ≡ r = ground arith in
      record {
        pending =
            ap (λ x. x.pending) self
            ∙ placed.pending
            ∙ waits_for
            ∙ sym (open_deps-update row id r ds (not_among id seen ds new behind));
        waits =
            ap (λ x. is_waiting x.state) self ∙ placed.waits ∙ ap (λ x. ltb 0 x.pending) (sym self);
        behind = more_seen id seen ds behind;
      }

  Visited-before :
      (id i : ℕ) (seen : List ℕ) (row : ℕ → Draft) (r : Draft)
      → count id seen ≡ 0
      → (i == id) ≡ false
      → Visited spec row seen i
      → Visited spec (update row id r) (id ∷ seen) i
  Visited-before id i seen row r new away v =
      let ds = map pos_part (spec i).deps in
      let same : update row id r i ≡ row i = rw (away) in
      record {
        pending =
            ap (λ x. x.pending) same
            ∙ v.pending
            ∙ sym (open_deps-update row id r ds (not_among id seen ds new v.behind));
        waits = ap (λ x. is_waiting x.state) same ∙ v.waits ∙ ap (λ x. ltb 0 x.pending) (sym same);
        behind = more_seen id seen ds v.behind;
      }

  visit-Loop :
      (id : ℕ) (seen : List ℕ) (s s' : Drafts)
      → count id seen ≡ 0
      → All (λ d. 0 < count d seen) (map pos_part (spec id).deps)
      → Loop spec seen s
      → visit sha256 toolchain spec blob cache id s ≡ ok s'
      → Loop spec (id ∷ seen) s'
  visit-Loop id seen s s' new behind l e =
      let (r, d, placed, waits_for, row, hits) = visit-row id seen s s' l e in
      record {
        outputs = λ i. ground (arith, ap (λ f. f i) row, l.outputs i, placed.output);
        hits = hits;
        visited = λ i m.
            subst (λ f. Visited spec f (id ∷ seen) i) (sym row)
              (elim (Bool-cases (i == id)) [
                | inl at ↦
                    subst (λ j. Visited spec (update s.row id r) (id ∷ seen) j) (ground (arith, at))
                      (Visited-now id seen s.row d r new behind placed waits_for)
                | inr away ↦
                    Visited-before id i seen s.row r new away
                      (l.visited i (ground (arith, away, m)))
              ]);
      }

  -- The loop over an order in which every task comes once and behind its dependencies.
  pub visit_all-Loop :
      (order seen : List ℕ) (s s' : Drafts)
      → IsOrdered (λ i. map pos_part (spec i).deps) seen order
      → ((i : ℕ) → count i order + count i seen ≤ 1)
      → Loop spec seen s
      → visit_all sha256 toolchain spec blob cache order s ≡ ok s'
      → (last : List ℕ) × ((i : ℕ) → count i last ≡ count i order + count i seen)
        × Loop spec last s'
  unfolding visit_all
  visit_all-Loop [] seen s s' ordered once l e =
      (seen, λ i. omega arith, subst (λ z. Loop spec seen z) (ok-injective e) l)
  visit_all-Loop (id ∷ order) seen s s' ordered once l e =
      let (next, first, rest) = >>=-eq-ok (visit sha256 toolchain spec blob cache id s) _ e in
      let l' = visit-Loop id seen s next (ground (arith, once id)) ordered.0 l first in
      let (last, counts, end) =
        visit_all-Loop order (id ∷ seen) next s' ordered.1 (λ i. omega (arith, once i)) l' rest in
      (last, λ i. omega (arith, counts i), end)
