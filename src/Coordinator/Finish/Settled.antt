-- ===== src/Coordinator/Finish/Settled.antt =====
-- The counter pending_deps through `finished`, `make_ready` and their recursion.
use distcompile.Prelude.{
  ℕ, ◌+◌, ◌≤◌, ◌<◌, ◌≡◌, ◌≢◌, sym, ap, ◌∙◌, ◌⊎◌, inl, inr, true, not, Option, some, arith, ltb,
}
use distcompile.Coordinator.Rows.{
  build_done, build_failed, ready, cached, active, Task, Build, is_finished, is_waiting, is_failed,
  count_tasks,
}
use distcompile.Coordinator.Finish.{Tx, maybe_finish}
use distcompile.Coordinator.Finish.Counting.{unfinished, count_tasks_mono}

-- Every task's counter is the number of its unfinished dependencies and of the countdowns that are
-- still owed to it, and the tasks that wait are those whose counter is not 0.
pub record Settled (b : Build) (owed : ℕ → ℕ) : Type 0 where
  pub pending :
      (j : ℕ) → j < b.total → (b.task j).pending_deps ≡ unfinished b.task j b.edges + owed j
  pub waits : (j : ℕ) → j < b.total → is_waiting (b.task j).state ≡ ltb 0 (b.task j).pending_deps

-- What a countdown may do to a row: nothing, or bring a waiting task forward.
abbrev pub IsPrepared : Task → Task → Type 0
IsPrepared x y =
    (is_waiting x.state ≡ true)
    × (y.attempts ≡ x.attempts)
    × (y.lease_owner ≡ x.lease_owner)
    × ((is_waiting y.state ≡ true) ⊎ (y.state ≡ ready) ⊎ (y.state ≡ cached))

abbrev pub Grown : Task → Task → Type 0
Grown x y = (y ≡ x) ⊎ IsPrepared x y

pub Grown-trans : (x y z : Task) → Grown x y → Grown y z → Grown x z
Grown-trans x y z (inl e) (inl f) = inl (f ∙ e)
Grown-trans x y z (inl e) (inr p) = inr (rw (← e) p)
Grown-trans x y z (inr p) (inl f) = inr (rw f p)
Grown-trans x y z (inr p) (inr q) = inr (p.0, q.1 ∙ p.1, q.2 ∙ p.2, q.3)

abbrev pub waiting_tasks : Build → ℕ
waiting_tasks b = count_tasks is_waiting b.total b.task

-- A build whose tasks are all finished is not left in state 'running'.
abbrev pub IsClosed : Build → Type 0
IsClosed b = count_tasks (λ x. not (is_finished x)) b.total b.task ≡ 0 → b.state ≢ active

-- A build that was closed has a failed task, or no task that is not finished.
abbrev pub IsJudged : Build → Type 0
IsJudged b =
    ((b.state ≡ build_failed) × (0 < count_tasks is_failed b.total b.task))
    ⊎ ((b.state ≡ build_done) × (count_tasks (λ x. not (is_finished x)) b.total b.task ≡ 0))

-- What a run does to the state of a build: nothing, or it closes one in state 'running'.
abbrev pub Closes : Build → Build → Type 0
Closes b b' = (b'.state ≡ b.state) ⊎ ((b.state ≡ active) × IsJudged b')

-- What is failed or finished stays so.
Grown-failed : (x y : Task) → Grown x y → is_failed x.state ≡ true → is_failed y.state ≡ true
Grown-failed x y (inl e) h = ap (λ z. is_failed z.state) e ∙ h
Grown-failed x y (inr p) h = absurd (ground arith)

Grown-unfinished :
    (x y : Task) → Grown x y → not (is_finished y.state) ≡ true → not (is_finished x.state) ≡ true
Grown-unfinished x y (inl e) h = ap (λ z. not (is_finished z.state)) (sym e) ∙ h
Grown-unfinished x y (inr p) h = ground (arith, p.0)

module _ (b b' : Build) (total : b'.total ≡ b.total)
    (grown : (j : ℕ) → Grown (b.task j) (b'.task j)) where
  IsJudged-Grown : b'.state ≡ b.state → IsJudged b → IsJudged b'
  IsJudged-Grown same (inl (e, bad)) = inl (
    same ∙ e,
    rw total (
        omega (
          arith,
          count_tasks_mono is_failed b.total b.task b'.task
              (λ i h. Grown-failed (b.task i) (b'.task i) (grown i)),
        )),
  )
  IsJudged-Grown same (inr (e, none_left)) = inr (
    same ∙ e,
    rw total (
        omega (
          arith,
          count_tasks_mono (λ x. not (is_finished x)) b.total b'.task b.task
              (λ i h. Grown-unfinished (b.task i) (b'.task i) (grown i)),
        )),
  )

IsJudged-closed : (b : Build) → IsJudged b → b.state ≢ active
IsJudged-closed b (inl (e, bad)) a = cc (e, a)
IsJudged-closed b (inr (e, none_left)) a = cc (e, a)

pub Closes-trans :
    (b m b' : Build)
    → b'.total ≡ m.total
    → ((j : ℕ) → Grown (m.task j) (b'.task j))
    → Closes b m
    → Closes m b'
    → Closes b b'
Closes-trans b m b' total grown (inl e) (inl f) = inl (f ∙ e)
Closes-trans b m b' total grown (inl e) (inr (a, j)) = inr (sym e ∙ a, j)
Closes-trans b m b' total grown (inr (a, j)) (inl f) = inr (a, IsJudged-Grown m b' total grown f j)
Closes-trans b m b' total grown (inr (a, j)) (inr (a', k)) = absurd (IsJudged-closed m j a')

-- A run from `b`: it ends, pays what was owed, and touches no row but those that wait.
pub record Settles (b : Build) (owed : ℕ → ℕ) (r : Option Tx) : Type 0 where
  pub after : Tx
  pub ends : r ≡ some after
  pub total : after.build.total ≡ b.total
  pub edges : after.build.edges ≡ b.edges
  pub settled : Settled after.build owed
  pub fewer : waiting_tasks after.build ≤ waiting_tasks b
  pub grown : (j : ℕ) → Grown (b.task j) (after.build.task j)
  pub closed : IsClosed after.build
  pub state : Closes b after.build

pub Settled-cong :
    (b : Build) (f g : ℕ → ℕ) → ((j : ℕ) → j < b.total → f j ≡ g j) → Settled b f → Settled b g
Settled-cong b f g e s = record {
  pending = λ j h. omega (arith, s.pending j h, e j h);
  waits = s.waits;
}

-- The counters depend on nothing but the rows.
pub Settled-rows :
    (b b' : Build) (owed : ℕ → ℕ)
    → b'.total ≡ b.total
    → b'.edges ≡ b.edges
    → b'.task ≡ b.task
    → Settled b owed
    → Settled b' owed
Settled-rows b b' owed total edges task s = record {
  pending = λ j h. rw (task, edges) (s.pending j (rw total at h));
  waits = λ j h. rw task (s.waits j (rw total at h));
}

-- `maybe_finish` writes the state of the build and nothing else.
pub maybe_finish-rows :
    (s : Tx)
    → ((maybe_finish s).build.total ≡ s.build.total)
      × ((maybe_finish s).build.edges ≡ s.build.edges)
      × ((maybe_finish s).build.task ≡ s.build.task)
unfolding maybe_finish
maybe_finish-rows s = ground arith

pub maybe_finish-IsClosed : (s : Tx) → IsClosed (maybe_finish s).build
unfolding maybe_finish
maybe_finish-IsClosed s = ground arith

-- A failed task closes the build too.
pub maybe_finish-failed :
    (s : Tx)
    → 0 < count_tasks is_failed s.build.total s.build.task
    → (maybe_finish s).build.state ≢ active
unfolding maybe_finish
maybe_finish-failed s h = ground arith

pub maybe_finish-Closes : (s : Tx) → Closes s.build (maybe_finish s).build
unfolding maybe_finish
maybe_finish-Closes s = ground arith

-- A build in state 'running' has no failed task.
abbrev pub IsHonest : Build → Type 0
IsHonest b = b.state ≡ active → count_tasks is_failed b.total b.task ≡ 0

pub maybe_finish-IsHonest : (s : Tx) → IsHonest (maybe_finish s).build
unfolding maybe_finish
maybe_finish-IsHonest s = ground arith

-- Nothing but what failed already is failed.
pub none_failed :
    (b b' : Build)
    → b'.total ≡ b.total
    → ((i : ℕ)
        → i < b.total
        → is_failed (b'.task i).state ≡ true
        → is_failed (b.task i).state ≡ true)
    → count_tasks is_failed b.total b.task ≡ 0
    → count_tasks is_failed b'.total b'.task ≡ 0
none_failed b b' total rows e =
    rw total (omega (arith, e, count_tasks_mono is_failed b.total b'.task b.task rows))

pub Grown-unfailed : (x y : Task) → Grown x y → is_failed y.state ≡ true → is_failed x.state ≡ true
Grown-unfailed x y (inl e) h = ap (λ z. is_failed z.state) (sym e) ∙ h
Grown-unfailed x y (inr p) h = absurd (ground (arith, p.3))

pub Closes-active : (b b' : Build) → Closes b b' → b'.state ≡ active → b.state ≡ active
Closes-active b b' (inl same) a = sym same ∙ a
Closes-active b b' (inr (e, judged)) a = e
