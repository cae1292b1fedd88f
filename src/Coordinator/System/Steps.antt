-- ===== src/Coordinator/System/Steps.antt =====
-- What each transaction does to a build in order.
use distcompile.Prelude.{
  update, ℕ, ◌≡◌, refl, sym, ap, subst, ◌∙◌, inl, inr, Bool, true, some, Text, arith, Bool-cases,
  ◌==◌,
}
use distcompile.Coordinator.Rows.{
  Task, Build, is_finished, is_failed, is_waiting, is_ready, ready, State,
}
use distcompile.Coordinator.Finish.{Tx}
use distcompile.Coordinator.Finish.Settled.{IsHonest, IsClosed, none_failed, Settled}
use distcompile.Coordinator.Lifecycle.{Move, stayed, taken}
use distcompile.Coordinator.Complete.{TaskResult, Site, complete_task}
use distcompile.Coordinator.Complete.Invariant.{nothing_owed, complete_task-Completed}
use distcompile.Coordinator.Claim.{ClaimRequest, is_eligible, running_row, heartbeat_row}
use distcompile.Coordinator.System.Builds.{
  IsInOrder, IsLevel, Progress, Progress-IsInOrder, IsAlike, Settled-IsAlike, IsClosed-IsAlike,
}

-- What an operation on a build in order is to show.
abbrev pub Keeps : ℕ → Build → Build → Type 0
Keeps m b b' = Progress m b b' × IsInOrder m b' × (IsLevel b → IsLevel b')

pub complete_task-Keeps :
    (site : Site) (r : TaskResult) (s s' : Tx) (accepted : Bool)
    → IsInOrder site.max_attempts s.build
    → complete_task site r s ≡ some (s', accepted)
    → Keeps site.max_attempts s.build s'.build
complete_task-Keeps site r s s' accepted o e =
    let c = complete_task-Completed site r s o.settled in
    let both : some (c.after, c.accepted) ≡ some (s', accepted) = sym c.ends ∙ e in
    let same : c.after ≡ s' = cc both in
    let p : Progress site.max_attempts s.build c.after.build = record {
      total = c.total;
      edges = c.edges;
      moved = c.moved;
      closes = c.state;
    } in
    subst (λ z. Keeps site.max_attempts s.build z.build) same
      (
        p,
        Progress-IsInOrder site.max_attempts s.build c.after.build p o c.settled,
        λ level. (c.closed level.0, c.honest level.1),
      )

-- Rows that change without a change of the build's own state.
module _ (m : ℕ) (b b' : Build) (total : b'.total ≡ b.total) (edges : b'.edges ≡ b.edges)
    (same : b'.state ≡ b.state)
    (rows : (i : ℕ) → Move m (b.task i) (b'.task i) × IsAlike (b.task i) (b'.task i)) where
  pub rows-Progress : Progress m b b'
  rows-Progress = record {
    total = total;
    edges = edges;
    moved = λ i. (rows i).0;
    closes = inl same;
  }

  pub rows-Settled : IsInOrder m b → Settled b' nothing_owed
  rows-Settled o = Settled-IsAlike b b' total edges (λ i. (rows i).1) o.settled

  pub rows-IsInOrder : IsInOrder m b → IsInOrder m b'
  rows-IsInOrder o = Progress-IsInOrder m b b' rows-Progress o (rows-Settled o)

  pub rows-IsClosed : IsClosed b → IsClosed b'
  rows-IsClosed closed = IsClosed-IsAlike b b' total edges (λ i. (rows i).1) same closed

  pub rows-Keeps : (IsHonest b → IsHonest b') → IsInOrder m b → Keeps m b b'
  rows-Keeps honest o =
      (rows-Progress, rows-IsInOrder o, λ level. (rows-IsClosed level.0, honest level.1))

  -- Without a new failure the build stays honest.
  rows-IsHonest :
      ((i : ℕ) → is_failed (b'.task i).state ≡ true → is_failed (b.task i).state ≡ true)
      → IsHonest b
      → IsHonest b'
  rows-IsHonest fewer honest a = none_failed b b' total (λ i h. fewer i) (honest (sym same ∙ a))

heartbeat_row-state :
    (until : ℕ) (worker : Text) (x : Task) → (heartbeat_row worker until x).state ≡ x.state
unfolding heartbeat_row
heartbeat_row-state until worker x = ground arith

heartbeat_row-Move :
    (m until : ℕ) (worker : Text) (x : Task)
    → let y = heartbeat_row worker until x in Move m x y × IsAlike x y
unfolding heartbeat_row
heartbeat_row-Move m until worker x =
    let y = heartbeat_row worker until x in
    let states : y.state ≡ x.state = ground arith in
    let attempts : y.attempts ≡ x.attempts = ground arith in
    let pending : y.pending_deps ≡ x.pending_deps = ground arith in
    (stayed states attempts, (ap is_finished states, ap is_waiting states, pending))

pub heartbeat-Keeps :
    (m until : ℕ) (worker : Text) (b : Build)
    → IsInOrder m b
    → Keeps m b (record b { task = λ i. heartbeat_row worker until (b.task i) })
heartbeat-Keeps m until worker b o =
    rows-Keeps m b (record b { task = λ i. heartbeat_row worker until (b.task i) }) refl refl refl
      (λ i. heartbeat_row-Move m until worker (b.task i))
      (rows-IsHonest m b (record b { task = λ i. heartbeat_row worker until (b.task i) }) refl refl
        refl (λ i. heartbeat_row-Move m until worker (b.task i))
        (λ i bad. ap is_failed (sym (heartbeat_row-state until worker (b.task i))) ∙ bad))
      o

ready_of : (s : State) → is_ready s ≡ true → s ≡ ready
ready_of s h = ground arith

pub eligible-ready :
    (q : ClaimRequest) (now : ℕ) (x : Task) → is_eligible q now x ≡ true → x.state ≡ ready
unfolding is_eligible
eligible-ready q now x h = ready_of x.state (ground arith)

update-rows :
    (m : ℕ) (task : ℕ → Task) (t : ℕ) (row : Task)
    → Move m (task t) row × IsAlike (task t) row
    → (i : ℕ) → Move m (task i) (update task t row i) × IsAlike (task i) (update task t row i)
update-rows m task t row own i = elim (Bool-cases (i == t)) [
  | inl here ↦ let same : i ≡ t = ground arith in rw (here, same) own
  | inr other ↦ rw other (stayed refl refl, (refl, refl, refl))
]

pub claim-Keeps :
    (m until id : ℕ) (worker : Text) (b : Build)
    → (b.task id).state ≡ ready
    → IsInOrder m b
    → Keeps m b (record b { task = update b.task id (running_row worker until (b.task id)) })
unfolding running_row
claim-Keeps m until id worker b e o =
    let x = b.task id in
    let b' = record b { task = update b.task id (running_row worker until x) } in
    let rows =
      update-rows m b.task id (running_row worker until x)
        (taken e refl (omega arith), (ap is_finished (sym e), ap is_waiting (sym e), refl)) in
    rows-Keeps m b b' refl refl refl rows
      (rows-IsHonest m b b' refl refl refl rows (λ i bad. elim (Bool-cases (i == id)) [
        | inl here ↦ absurd (cc (rw here at bad))
        | inr other ↦ rw other at bad
      ]))
      o
