-- ===== src/Coordinator/Finish/Run.antt =====
-- The recursion of `finished` through `make_ready`: its fuel and the counters.
use distcompile.Prelude.{
  update, ℕ, zero, suc, ◌+◌, ◌≤◌, ◌<◌, ◌≡◌, ◌≢◌, refl, ap, ◌∙◌, ◌⊎◌, inl, inr, true, false, not,
  Option, none, some, List, [], ◌∷◌, Text, arith, ◌==◌, Bool-cases, Option-cases, is_empty,
}
use native.Mathlib.Decide.{ℕ_discrete}
use distcompile.Prelude.Counts.{count}
use distcompile.Coordinator.Rows.{Task, Build, CacheRow, Cache, is_finished, is_waiting}
use distcompile.Coordinator.Finish.{
  Tx, counted, ready_row, cached_row, use_hit, set_task, maybe_finish, count_edges, dependents,
  dep_digests, dep_names, task_key, make_ready, count_down, finished, ◌>>=◌,
}
use distcompile.Coordinator.Finish.Counting.{dependents-count, count_tasks-update, count_tasks-pos}
use distcompile.Coordinator.Finish.Settled.{
  Settled, Settles, Settled-cong, waiting_tasks, IsClosed, Grown, Grown-trans, IsPrepared, Closes,
  Closes-trans, maybe_finish-Closes, maybe_finish-rows, Settled-rows, maybe_finish-IsClosed,
}
use distcompile.Coordinator.Finish.Steps.{
  put_row, put_twice, is_waiting-t, counted-Settled, ready-Settled, cached-Settled, put_twice-fewer,
}

empty_of : (l : List ℕ) → is_empty l ≡ true → l ≡ []
empty_of [] e = refl
empty_of (x ∷ l) e = absurd (cc)

-- What a run from `b'` does, seen from a state `b` that led to `b'`.
pub Settles-from :
    (b b' : Build) (owed : ℕ → ℕ) (r : Option Tx)
    → b'.total ≡ b.total
    → b'.edges ≡ b.edges
    → Closes b b'
    → waiting_tasks b' ≤ waiting_tasks b
    → ((j : ℕ) → Grown (b.task j) (b'.task j))
    → Settles b' owed r
    → Settles b owed r
Settles-from b b' owed r same_total same_edges state fewer grown s = record {
  after = s.after;
  ends = s.ends;
  total = s.total ∙ same_total;
  edges = s.edges ∙ same_edges;
  settled = s.settled;
  fewer = omega (arith, s.fewer);
  grown = λ j. Grown-trans (b.task j) (b'.task j) (s.after.build.task j) (grown j) (s.grown j);
  closed = s.closed;
  state = Closes-trans b b' s.after.build s.total s.grown state s.state;
}

waiting-IsClosed :
    (b : Build) (t : ℕ) → t < b.total → is_finished (b.task t).state ≡ false → IsClosed b
waiting-IsClosed b t below e = λ none_left.
    absurd
      (omega (arith, count_tasks-pos (λ x. not (is_finished x)) b.total b.task t below (ap not e)))

counted-Grown :
    (b : Build) (t : ℕ)
    → is_waiting (b.task t).state ≡ true
    → (j : ℕ) → Grown (b.task j) ((put_row b t (counted (b.task t))).task j)
unfolding counted
counted-Grown b t w j = elim (Bool-cases (j == t)) [
  | inl here ↦ let same : j ≡ t = ground arith in rw (here, same) (inr (w, refl, refl, inl w))
  | inr other ↦ rw other (inl refl)
]

counted-waiting :
    (b : Build) (t : ℕ) → waiting_tasks (put_row b t (counted (b.task t))) ≡ waiting_tasks b
unfolding counted
counted-waiting b t =
    omega (arith, count_tasks-update is_waiting b.total b.task t (counted (b.task t)))

counted-open :
    (b : Build) (t : ℕ)
    → is_waiting (b.task t).state ≡ true
    → is_finished ((put_row b t (counted (b.task t))).task t).state ≡ false
unfolding counted
counted-open b t w = ground arith

put_twice-Grown :
    (b : Build) (t : ℕ) (r : Task)
    → IsPrepared (b.task t) r
    → (j : ℕ) → Grown (b.task j) ((put_twice b t r).task j)
put_twice-Grown b t r p j = elim (Bool-cases (j == t)) [
  | inl here ↦ let same : j ≡ t = ground arith in rw (here, same) (inr p)
  | inr other ↦ rw other (inl refl)
]

update_self : (task : ℕ → Task) (t : ℕ) (r : Task) → update task t r t ≡ r
update_self task t r = ground arith

-- A run of `finished` with this fuel, from any state that owes the dependents of the task a countdown.
abbrev pub Finishes : (ℕ → Tx → Option Tx) → ℕ → Type 0
Finishes finish fuel =
    (s : Tx) (x : ℕ) (owed : ℕ → ℕ)
    → Settled s.build (λ j. owed j + count_edges j x s.build.edges)
    → waiting_tasks s.build < fuel
    → Settles s.build owed (finish x s)

-- The task of a countdown that reached 0: the row before it is made ready, and what is known of it.
module _ (b : Build) (owed : ℕ → ℕ) (t : ℕ) (below : t < b.total)
    (v : Settled b (λ j. owed j + count j (t ∷ []))) (one : (b.task t).pending_deps ≡ 1) where
  ready_row-Settles :
      (key : Text) (digests names : List Text) (c : Cache)
      → let r = ready_row key digests names (counted (b.task t)) in
        Settles b owed (some (record { build = put_twice b t r; cache = c }))
  unfolding ready_row counted
  ready_row-Settles key digests names c =
      let r = ready_row key digests names (counted (b.task t)) in
      let none_left : r.pending_deps ≡ 0 = omega arith in
      record {
        after = record { build = put_twice b t r; cache = c };
        ends = refl;
        total = refl;
        edges = refl;
        settled = ready-Settled b owed t below v r one none_left refl;
        fewer = omega (arith, put_twice-fewer b owed t below v r one none_left refl);
        grown = put_twice-Grown b t r (is_waiting-t b owed t below v, refl, refl, inr (inl refl));
        closed = waiting-IsClosed (put_twice b t r) t below (
            ap (λ x. is_finished x.state) (update_self (update b.task t (counted (b.task t))) t r));
        state = inl refl;
      }

  cached_row-Settles :
      (finish : ℕ → Tx → Option Tx) (fuel : ℕ) (key : Text) (hit : CacheRow) (c : Cache)
      → Finishes finish fuel
      → waiting_tasks b ≤ fuel
      → let r = cached_row key hit (counted (b.task t)) in
        Settles b owed (finish t (record { build = put_twice b t r; cache = c }))
  unfolding cached_row counted
  cached_row-Settles finish fuel key hit c ih w =
      let r = cached_row key hit (counted (b.task t)) in
      let none_left : r.pending_deps ≡ 0 = omega arith in
      let fewer = put_twice-fewer b owed t below v r one none_left refl in
      Settles-from b (put_twice b t r) owed _ refl refl (inl refl) (omega (arith, fewer))
        (put_twice-Grown b t r (is_waiting-t b owed t below v, refl, refl, inr (inr refl)))
        (ih _ t owed (cached-Settled b owed t below v r one none_left refl) (omega (arith, fewer)))

-- The branches of `make_ready` and of the loop as equations.
module _ (sha256 : Text → Text) (finish : ℕ → Tx → Option Tx) (t : ℕ) (s : Tx) where
  make_ready-miss :
      s.cache (task_key sha256 s.build t) ≡ none
      → make_ready sha256 finish t s
        ≡ some (
            set_task s t (
              ready_row
                (task_key sha256 s.build t)
                (dep_digests s.build t)
                (dep_names s.build t)
                (s.build.task t)))
  unfolding make_ready
  make_ready-miss e = rw (e, make_ready)

  make_ready-hit :
      (hit : CacheRow)
      → s.cache (task_key sha256 s.build t) ≡ some hit
      → make_ready sha256 finish t s ≡ finish t (use_hit t (task_key sha256 s.build t) hit s)
  unfolding make_ready
  make_ready-hit hit e = rw (e, make_ready)

module _ (prepare : ℕ → Tx → Option Tx) (t : ℕ) (ts : List ℕ) (s : Tx) where
  count_down-last :
      (s.build.task t).pending_deps ≡ 1
      → count_down prepare (t ∷ ts) s
        ≡ (prepare t (set_task s t (counted (s.build.task t))) >>= count_down prepare ts)
  unfolding count_down
  count_down-last e =
      let test : ((s.build.task t).pending_deps == 1) ≡ true = ground arith in rw (test, count_down)

  count_down-more :
      (s.build.task t).pending_deps ≢ 1
      → count_down prepare (t ∷ ts) s
        ≡ count_down prepare ts (set_task s t (counted (s.build.task t)))
  unfolding count_down
  count_down-more e =
      let test : ((s.build.task t).pending_deps == 1) ≡ false = ground arith in
      rw (test, count_down)

module _ (sha256 : Text → Text) (finish : ℕ → Tx → Option Tx) (fuel : ℕ)
    (ih : Finishes finish fuel) where
  make_ready-Settles :
      (s : Tx) (t : ℕ) (owed : ℕ → ℕ)
      → t < s.build.total
      → Settled s.build (λ j. owed j + count j (t ∷ []))
      → (s.build.task t).pending_deps ≡ 1
      → waiting_tasks s.build ≤ fuel
      → Settles s.build owed (make_ready sha256 finish t (set_task s t (counted (s.build.task t))))
  make_ready-Settles s t owed below v one w =
      let b = s.build in
      let s' = set_task s t (counted (b.task t)) in
      let self = update_self b.task t (counted (b.task t)) in
      elim (Option-cases (s.cache (task_key sha256 s'.build t))) [
        | inl miss ↦
            rw (make_ready-miss sha256 finish t s' miss, self)
              (ready_row-Settles b owed t below v one _ (dep_digests s'.build t)
                (dep_names s'.build t) s.cache)
        | inr (hit, e) ↦
            rw (make_ready-hit sha256 finish t s' hit e, self)
              (cached_row-Settles b owed t below v one finish fuel _ hit _ ih w)
      ]

  count_down-Settles :
      (ts : List ℕ) (s : Tx) (owed : ℕ → ℕ)
      → ((a : ℕ) → 0 < count a ts → a < s.build.total)
      → Settled s.build (λ j. owed j + count j ts)
      → waiting_tasks s.build ≤ fuel
      → IsClosed s.build ⊎ (ts ≢ [])
      → Settles s.build owed (count_down (make_ready sha256 finish) ts s)
  unfolding count_down
  count_down-Settles [] s owed range v w c = record {
    after = s;
    ends = refl;
    total = refl;
    edges = refl;
    settled = Settled-cong s.build _ owed (λ j h. omega arith) v;
    fewer = omega arith;
    grown = λ j. inl refl;
    closed = elim c [ inl closed ↦ closed | inr never ↦ absurd (never refl) ];
    state = inl refl;
  }
  count_down-Settles (t ∷ ts) s owed range v w c =
      let b = s.build in
      let here : t < b.total = range t (ground arith) in
      let later : (a : ℕ) → 0 < count a ts → a < b.total = λ a m. range a (ground arith) in
      let v' : Settled b (λ j. (owed j + count j ts) + count j (t ∷ [])) =
        Settled-cong b _ _ (λ j h. omega arith) v in
      let w_t = is_waiting-t b (λ j. owed j + count j ts) t here v' in
      elim (ℕ_discrete (b.task t).pending_deps 1) [
        | yes one ↦
            let r = make_ready-Settles s t (λ j. owed j + count j ts) here v' one w in
            let next =
              count_down-Settles ts r.after owed (λ a m. rw r.total (later a m)) r.settled
                (omega (arith, r.fewer)) (inl r.closed) in
            rw (count_down-last (make_ready sha256 finish) t ts s one, r.ends)
              (Settles-from b r.after.build owed _ r.total r.edges r.state r.fewer r.grown next)
        | no more ↦
            let s' = set_task s t (counted (b.task t)) in
            let same = counted-waiting b t in
            let open_t = counted-open b t w_t in
            rw (count_down-more (make_ready sha256 finish) t ts s more) (
              Settles-from b s'.build owed _ refl refl (inl refl) (omega (arith, same))
                (counted-Grown b t w_t)
                (count_down-Settles ts s' owed later
                  (counted-Settled b (λ j. owed j + count j ts) t here v' more)
                  (omega (arith, same)) (inl (waiting-IsClosed s'.build t here open_t))))
      ]

dependents-none :
    (b : Build) (x : ℕ)
    → is_empty (dependents b x) ≡ true
    → (j : ℕ) → j < b.total
    → count_edges j x b.edges ≡ 0
dependents-none b x e j h =
    ground (arith, dependents-count b x j, ap (count j) (empty_of (dependents b x) e))

-- A task that nobody waits for: only the state of the build is looked at.
maybe_finish-Settles :
    (s : Tx) (x : ℕ) (owed : ℕ → ℕ)
    → ((j : ℕ) → j < s.build.total → count_edges j x s.build.edges ≡ 0)
    → Settled s.build (λ j. owed j + count_edges j x s.build.edges)
    → Settles s.build owed (some (maybe_finish s))
maybe_finish-Settles s x owed nobody v =
    let rows = maybe_finish-rows s in
    record {
      after = maybe_finish s;
      ends = refl;
      total = rows.0;
      edges = rows.1;
      settled =
          Settled-rows s.build (maybe_finish s).build owed rows.0 rows.1 rows.2
            (Settled-cong s.build _ owed (λ j h. omega (arith, nobody j h)) v);
      fewer = rw rows.0 (rw rows.2 (omega arith));
      grown = λ j. inl (ap (λ f. f j) rows.2);
      closed = maybe_finish-IsClosed s;
      state = maybe_finish-Closes s;
    }

finished-Finishes : (sha256 : Text → Text) (fuel : ℕ) → Finishes (finished sha256 fuel) fuel
unfolding finished
finished-Finishes sha256 zero s x owed v w = absurd (omega arith)
finished-Finishes sha256 (suc fuel) s x owed v w =
    let b = s.build in
    elim (Bool-cases (is_empty (dependents b x))) [
      | inl nobody ↦
          rw (nobody, finished) (maybe_finish-Settles s x owed (dependents-none b x nobody) v)
      | inr some_wait ↦
          rw (some_wait, finished)
            (count_down-Settles sha256 (finished sha256 fuel) fuel (finished-Finishes sha256 fuel)
              (dependents b x) s owed (λ a m. ground (arith, dependents-count b x a))
              (Settled-cong b _ _ (λ j h. ground (arith, dependents-count b x j)) v) (omega arith)
              (inr (λ e. cc (e, some_wait))))
    ]

-- A run of `finished`, or of the tasks it finishes in turn, ends when the fuel exceeds the number of
-- waiting tasks, from any state whose counters are right but for a countdown that the dependents of
-- task `x` (and others, `owed`) still have coming. Afterwards the counters are right but for `owed`,
-- no more tasks wait than before, the run only brought waiting rows forward, and a build all of
-- whose tasks are finished is not in state 'running'.
pub finished-Settles :
    (sha256 : Text → Text) (fuel : ℕ) (s : Tx) (x : ℕ) (owed : ℕ → ℕ)
    → Settled s.build (λ j. owed j + count_edges j x s.build.edges)
    → waiting_tasks s.build < fuel
    → Settles s.build owed (finished sha256 fuel x s)
finished-Settles sha256 fuel s x owed v w = finished-Finishes sha256 fuel s x owed v w
