-- ===== src/Coordinator/Complete/Invariant.antt =====
-- What one completion does to the tables.
use distcompile.Prelude.{
  update, ℕ, suc, ◌+◌, ◌<◌, ◌≡◌, ◌≢◌, refl, sym, ap, subst, ◌∙◌, inl, inr, Bool, true, false, ◌&&◌,
  not, Option, some, Text, codes, arith, ltb, ◌==◌, if◌then◌else◌, Bool-cases,
}
use distcompile.Coordinator.Rows.{
  Task, text_of, done, running, is_open, is_running, is_failed, is_finished, is_waiting,
}
use distcompile.Coordinator.Finish.{Tx, set_task, maybe_finish, count_edges}
use distcompile.Coordinator.Finish.Counting.{
  unfinished-finish, count_tasks-le, unfinished-same, count_tasks-pos,
}
use native.Mathlib.Decide.{dec_le}
use distcompile.Coordinator.Lifecycle.{
  Move, stayed, gave_up, requeued, Move-all, Grown-Move, done-Move,
}
use distcompile.Coordinator.Finish.Settled.{
  Closes, Closes-active, maybe_finish-Closes, IsHonest, maybe_finish-IsHonest, none_failed,
  Grown-unfailed, Settled, Grown, Grown-trans, maybe_finish-rows, maybe_finish-IsClosed, IsClosed,
  Settled-rows,
}
use distcompile.Coordinator.Finish.Run.{finished-Settles}
use distcompile.Coordinator.Complete.{
  TaskResult, cache_put, Site, retry_copy, done_row, retry_row, failed_row, complete_done,
  complete_retry, complete_failed, complete_tx, complete_task,
}

-- Nothing is owed between two transactions.
abbrev pub nothing_owed : ℕ → ℕ
nothing_owed j = 0

pub record Completed (max_attempts : ℕ) (Q : Task → Type 0) (s : Tx) (t : ℕ)
    (out : Option (Tx × Bool)) : Type 0 where
  pub after : Tx
  pub accepted : Bool
  pub ends : out ≡ some (after, accepted)
  pub total : after.build.total ≡ s.build.total
  pub edges : after.build.edges ≡ s.build.edges
  pub settled : Settled after.build nothing_owed
  pub refused : accepted ≡ false → after ≡ s
  pub others : (j : ℕ) → j ≢ t → Grown (s.build.task j) (after.build.task j)
  pub closed : IsClosed s.build → IsClosed after.build
  pub written : accepted ≡ true → Q (after.build.task t)
  pub moved : (j : ℕ) → Move max_attempts (s.build.task j) (after.build.task j)
  pub state : Closes s.build after.build
  pub honest : IsHonest s.build → IsHonest after.build

refusal :
    (max_attempts : ℕ) (Q : Task → Type 0) (s : Tx) (t : ℕ)
    → Settled s.build nothing_owed
    → Completed max_attempts Q s t (some (s, false))
refusal m Q s t v = record {
  after = s;
  accepted = false;
  ends = refl;
  total = refl;
  edges = refl;
  settled = v;
  refused = λ e. refl;
  others = λ j h. inl refl;
  closed = λ c. c;
  written = λ e. absurd (cc);
  moved = λ j. stayed refl refl;
  state = inl refl;
  honest = λ h. h;
}

module _ (s : Tx) (t : ℕ) (row : Task) (below : t < s.build.total)
    (v : Settled s.build nothing_owed) (old : is_open (s.build.task t).state ≡ true)
    (counter : row.pending_deps ≡ (s.build.task t).pending_deps) where
  open_facts :
      (is_finished (s.build.task t).state ≡ false) × (is_waiting (s.build.task t).state ≡ false)
  open_facts = ground arith

  -- A row that gets finished leaves a countdown to each of its dependents.
  pub finish-Settled :
      is_finished row.state ≡ true
      → Settled (set_task s t row).build (λ j. nothing_owed j + count_edges j t s.build.edges)
  finish-Settled e = record {
    pending = λ j h. ground (
      arith,
      v.pending j h,
      counter,
      unfinished-finish s.build.task t row j s.build.edges open_facts.0 e,
    );
    waits = λ j h. ground (arith, v.waits j h, counter, open_facts);
  }

  -- A row that is neither finished nor waiting changes no counter.
  pub reopen-Settled :
      is_finished row.state ≡ false
      → is_waiting row.state ≡ false
      → Settled (set_task s t row).build nothing_owed
  reopen-Settled e f = record {
    pending = λ j h. ground (
      arith,
      v.pending j h,
      counter,
      unfinished-same s.build.task t row j s.build.edges (e ∙ sym open_facts.0),
    );
    waits = λ j h. ground (arith, v.waits j h, counter, open_facts);
  }

set_task-others :
    (s : Tx) (t : ℕ) (row : Task) (j : ℕ)
    → j ≢ t
    → Grown (s.build.task j) ((set_task s t row).build.task j)
set_task-others s t row j h = let other : (j == t) ≡ false = ground arith in rw other (inl refl)

update_self : (task : ℕ → Task) (t : ℕ) (row : Task) → update task t row t ≡ row
update_self task t row = ground arith

set_task-unfailed :
    (s : Tx) (t : ℕ) (row : Task)
    → is_failed row.state ≡ false
    → (i : ℕ) → is_failed ((set_task s t row).build.task i).state ≡ true
    → is_failed (s.build.task i).state ≡ true
set_task-unfailed s t row fine i bad = elim (Bool-cases (i == t)) [
  | inl here ↦ absurd (cc (fine, rw here at bad))
  | inr other ↦ rw other at bad
]

set_task-Move :
    (max_attempts : ℕ) (s : Tx) (t : ℕ) (row : Task)
    → Move max_attempts (s.build.task t) row
    → (j : ℕ) → Move max_attempts (s.build.task j) ((set_task s t row).build.task j)
set_task-Move m s t row move =
    Move-all m s.build.task (set_task s t row).build.task t
      (subst (Move m (s.build.task t)) (sym (update_self s.build.task t row)) move)
      (λ j h.
        Grown-Move m (s.build.task j) ((set_task s t row).build.task j)
          (set_task-others s t row j h))

retry_row-Move :
    (max_attempts now : ℕ) (log : Text) (me : Task)
    → me.state ≡ running
    → Move max_attempts me (retry_row max_attempts now log me)
unfolding retry_row
retry_row-Move m now log me e = elim (dec_le m me.attempts) [
  | yes often ↦ gave_up (ap is_open e) (ground arith) refl
  | no seldom ↦ requeued e (ground arith) (omega arith) refl
]

retry_row-facts :
    (max_attempts now : ℕ) (log : Text) (me : Task)
    → let row = retry_row max_attempts now log me in
      (is_finished row.state ≡ false)
      × (is_waiting row.state ≡ false)
      × (row.pending_deps ≡ me.pending_deps)
      × (is_running row.state ≡ false)
unfolding retry_row
retry_row-facts max_attempts now log me = ground arith

-- A done row stays as it is when waiting rows come forward.
Grown-done : {x y : Task} → x.state ≡ done → Grown x y → is_open y.state ≡ false
Grown-done e (inl same) = ap (λ z. is_open z.state) same ∙ ap is_open e
Grown-done e (inr p) = absurd (cc (ap is_waiting e, p.0))

-- Whether the WHERE clause of the UPDATE for this result passes the row.
abbrev pub takes : TaskResult → Task → Bool
takes r x =
    if r.ok then is_open x.state else if r.retryable then is_running x.state else is_open x.state

-- The result that is acted on.
abbrev pub effective : Site → TaskResult → TaskResult
effective site r =
    if r.ok && not (site.has r.output) then retry_copy r (codes "output blob missing") else r

-- What the guard of an UPDATE says.
guard-true : (t n : ℕ) (c : Bool) → (ltb t n && c) ≡ true → (t < n) × (c ≡ true)
guard-true t n c h = ground arith

by_result :
    (max_attempts : ℕ) (ok retryable : Bool) (s : Tx) (t : ℕ) {x y z : Option (Tx × Bool)}
    → Completed max_attempts (λ row. is_open row.state ≡ false) s t x
    → Completed max_attempts (λ row. is_running row.state ≡ false) s t y
    → Completed max_attempts (λ row. is_open row.state ≡ false) s t z
    → Completed max_attempts
        (λ row.
          (if ok
            then is_open row.state
            else if retryable
            then is_running row.state
            else is_open row.state)
          ≡ false)
        s
        t
        (if ok then x else if retryable then y else z)
by_result m true retryable s t p q r = p
by_result m false true s t p q r = q
by_result m false false s t p q r = r

module _ (site : Site) (r : TaskResult) (s : Tx) (v : Settled s.build nothing_owed) where
  complete_done-Completed :
      Completed site.max_attempts (λ x. is_open x.state ≡ false) s r.task (complete_done site r s)
  unfolding complete_done done_row
  complete_done-Completed =
      let t = r.task in
      let me = s.build.task t in
      elim (Bool-cases (ltb t s.build.total && is_open me.state)) [
        | inr refused ↦ rw (refused, complete_done) (refusal site.max_attempts _ s t v)
        | inl passed ↦
            let (below, old) = guard-true t s.build.total (is_open me.state) passed in
            let s' : Tx = record (set_task s t (done_row r me)) {
              cache = cache_put (text_of me.key) r.output (site.size_of r.output) s.cache;
            } in
            let run =
              finished-Settles site.sha256 (suc s.build.total) s' t nothing_owed
                (finish-Settled s t (done_row r me) below v old refl refl)
                (omega (arith, count_tasks-le is_waiting s.build.total s'.build.task)) in
            rw (passed, complete_done, run.ends)
              (record {
                after = run.after;
                accepted = true;
                ends = refl;
                total = run.total;
                edges = run.edges;
                settled = run.settled;
                refused = λ e. absurd (cc);
                others = λ j h.
                    Grown-trans (s.build.task j) (s'.build.task j) (run.after.build.task j)
                      (set_task-others s t (done_row r me) j h) (run.grown j);
                closed = λ c. run.closed;
                moved = λ j.
                    Move-all site.max_attempts s.build.task run.after.build.task t
                      (done-Move site.max_attempts me (done_row r me) (run.after.build.task t) old
                        refl refl
                        (subst (λ x. Grown x (run.after.build.task t))
                          (update_self s.build.task t (done_row r me)) (run.grown t)))
                      (λ i h.
                        Grown-Move site.max_attempts (s.build.task i) (run.after.build.task i) (
                          Grown-trans (s.build.task i) (s'.build.task i) (run.after.build.task i)
                            (set_task-others s t (done_row r me) i h) (run.grown i)))
                      j;
                state = run.state;
                honest = λ honest a.
                    none_failed s.build run.after.build run.total
                      (λ i h bad. set_task-unfailed s t (done_row r me) refl i (
                        Grown-unfailed (s'.build.task i) (run.after.build.task i) (run.grown i)
                          bad))
                      (honest (Closes-active s'.build run.after.build run.state a));
                written = λ e.
                    Grown-done (ap (λ x. x.state) (update_self s.build.task t (done_row r me)))
                      (run.grown t);
              })
      ]

  -- An UPDATE of one row, behind which the build is looked at.
  looked_at-Completed :
      (Q : Task → Type 0) (row : Task)
      → Q row
      → Move site.max_attempts (s.build.task r.task) row
      → Settled (set_task s r.task row).build nothing_owed
      → Completed site.max_attempts Q s r.task (some (maybe_finish (set_task s r.task row), true))
  looked_at-Completed Q row q move v' =
      let s' = set_task s r.task row in
      let rows = maybe_finish-rows s' in
      record {
        after = maybe_finish s';
        accepted = true;
        ends = refl;
        total = rows.0;
        edges = rows.1;
        settled =
            Settled-rows s'.build (maybe_finish s').build nothing_owed rows.0 rows.1 rows.2 v';
        refused = λ e. absurd (cc);
        others = λ j h.
            subst (λ f. Grown (s.build.task j) (f j)) (sym rows.2)
              (set_task-others s r.task row j h);
        closed = λ c. maybe_finish-IsClosed s';
        moved = λ j.
            subst (λ f. Move site.max_attempts (s.build.task j) (f j)) (sym rows.2)
              (set_task-Move site.max_attempts s r.task row move j);
        state = maybe_finish-Closes s';
        honest = λ honest. maybe_finish-IsHonest s';
        written =
            λ e. subst Q (sym (ap (λ f. f r.task) rows.2 ∙ update_self s.build.task r.task row)) q;
      }

  -- An UPDATE of one row that leaves the task open.
  requeued-Completed :
      (Q : Task → Type 0) (row : Task)
      → Q row
      → r.task < s.build.total
      → is_finished row.state ≡ false
      → is_failed row.state ≡ false
      → Move site.max_attempts (s.build.task r.task) row
      → Settled (set_task s r.task row).build nothing_owed
      → Completed site.max_attempts Q s r.task (some (set_task s r.task row, true))
  requeued-Completed Q row q below e unfailed move v' = record {
    after = set_task s r.task row;
    accepted = true;
    ends = refl;
    total = refl;
    edges = refl;
    settled = v';
    refused = λ e. absurd (cc);
    others = set_task-others s r.task row;
    closed = λ c none_left. absurd (
        omega (
          arith,
          count_tasks-pos (λ x. not (is_finished x)) s.build.total (update s.build.task r.task row)
              r.task below (ground arith),
        ));
    written = λ e. subst Q (sym (update_self s.build.task r.task row)) q;
    moved = set_task-Move site.max_attempts s r.task row move;
    state = inl refl;
    honest = λ honest a.
        none_failed s.build (set_task s r.task row).build refl
          (λ i h. set_task-unfailed s r.task row unfailed i) (honest a);
  }

  complete_failed-Completed :
      Completed site.max_attempts (λ x. is_open x.state ≡ false) s r.task (complete_failed site r s)
  unfolding complete_failed failed_row
  complete_failed-Completed =
      let t = r.task in
      let me = s.build.task t in
      elim (Bool-cases (ltb t s.build.total && is_open me.state)) [
        | inr refused ↦ rw (refused, complete_failed) (refusal site.max_attempts _ s t v)
        | inl passed ↦
            let (below, old) = guard-true t s.build.total (is_open me.state) passed in
            rw (passed, complete_failed)
              (looked_at-Completed _ (failed_row r me) refl (gave_up old refl refl)
                (reopen-Settled s t (failed_row r me) below v old refl refl refl))
      ]

  complete_retry-Completed :
      Completed site.max_attempts
        (λ x. is_running x.state ≡ false)
        s
        r.task
        (complete_retry site r s)
  unfolding complete_retry
  complete_retry-Completed =
      let t = r.task in
      let me = s.build.task t in
      let row = retry_row site.max_attempts site.now r.log me in
      let test = is_running me.state && (me.attempts == r.attempt) in
      elim (Bool-cases (ltb t s.build.total && test)) [
        | inr refused ↦ rw (refused, complete_retry) (refusal site.max_attempts _ s t v)
        | inl passed ↦
            let (below, both) = guard-true t s.build.total test passed in
            let old : is_open me.state ≡ true = ground arith in
            let move = retry_row-Move site.max_attempts site.now r.log me (ground arith) in
            let facts = retry_row-facts site.max_attempts site.now r.log me in
            let v' = reopen-Settled s t row below v old facts.2 facts.0 facts.1 in
            rw (passed, complete_retry)
              (elim (Bool-cases (is_failed row.state)) [
                | inl bad ↦ rw bad (looked_at-Completed _ row facts.3 move v')
                | inr again ↦
                    rw again (requeued-Completed _ row facts.3 below facts.0 again move v')
              ])
      ]

  complete_tx-Completed :
      Completed site.max_attempts (λ x. takes r x ≡ false) s r.task (complete_tx site r s)
  unfolding complete_tx
  complete_tx-Completed =
      by_result site.max_attempts r.ok r.retryable s r.task complete_done-Completed
        complete_retry-Completed complete_failed-Completed

by_loss :
    (lost : Bool) (site : Site) (r' r : TaskResult) (s : Tx)
    → r'.task ≡ r.task
    → Settled s.build nothing_owed
    → Completed site.max_attempts
        (λ x. takes (if lost then r' else r) x ≡ false)
        s
        r.task
        (if lost then complete_tx site r' s else complete_tx site r s)
by_loss true site r' r s e v =
    subst (λ t. Completed site.max_attempts (λ x. takes r' x ≡ false) s t (complete_tx site r' s)) e
      (complete_tx-Completed site r' s v)
by_loss false site r' r s e v = complete_tx-Completed site r s v

-- A completion on a build whose counters are right ends, and leaves them right. A refused one
-- changes nothing. The row of an accepted one no longer passes the test that let it in; the other
-- rows stay, or come forward from waiting; and every row makes one move of the diagram of states at
-- most. If no build was in state 'running' with all its tasks finished, none is afterwards; and the
-- state of the build stays, or goes from 'running' to 'failed' with a failed task or to 'done' with
-- all tasks finished.
pub complete_task-Completed :
    (site : Site) (r : TaskResult) (s : Tx)
    → Settled s.build nothing_owed
    → Completed site.max_attempts
        (λ x. takes (effective site r) x ≡ false)
        s
        r.task
        (complete_task site r s)
unfolding complete_task retry_copy
complete_task-Completed site r s v =
    by_loss (r.ok && not (site.has r.output)) site (retry_copy r (codes "output blob missing")) r s
      refl v
