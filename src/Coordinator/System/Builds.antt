-- ===== src/Coordinator/System/Builds.antt =====
-- What a transaction keeps of a build.
use distcompile.Prelude.{
  All, ◌<◌, subst, ℕ, ◌≡◌, refl, sym, ap, ◌∙◌, ◌⊎◌, inl, inr, true, not, arith, Bool-cases,
}
use distcompile.Coordinator.Rows.{Task, Build, active, is_finished, is_failed, is_waiting}
use distcompile.Coordinator.Finish.Counting.{unfinished, unfinished-cong, count_tasks_mono}
use distcompile.Coordinator.Finish.Settled.{IsHonest, Settled, IsClosed, IsJudged, Closes}
use distcompile.Coordinator.Lifecycle.{Move, stayed, IsBounded, Move-IsBounded, Move-final}
use distcompile.Coordinator.Complete.Invariant.{nothing_owed}

-- No chain of dependencies leads back to a task or out of the build: a rank of the tasks falls along
-- every dependency.
abbrev pub IsLayered : Build → Type 0
IsLayered b = (rank : ℕ → ℕ) × All (λ e. (e.dep < b.total) × (rank e.dep < rank e.task)) b.edges

-- A build in order: its dependencies are layered, its counters are right, in another state than
-- 'running' it is 'failed' with a failed task or 'done' with all
-- tasks finished, and no task was tried too often.
pub record IsInOrder (max_attempts : ℕ) (b : Build) : Type 0 where
  pub layered : IsLayered b
  pub settled : Settled b nothing_owed
  pub judged : (b.state ≡ active) ⊎ IsJudged b
  pub bounded : (i : ℕ) → IsBounded max_attempts (b.task i)

-- A build that was looked at: in state 'running' not all of its tasks are finished, and none failed.
abbrev pub IsLevel : Build → Type 0
IsLevel b = IsClosed b × IsHonest b

-- How a build may change: each task by an arrow of its diagram, and the build itself once, from
-- 'running' to the state that its tasks give it.
pub record Progress (max_attempts : ℕ) (b b' : Build) : Type 0 where
  pub total : b'.total ≡ b.total
  pub edges : b'.edges ≡ b.edges
  pub moved : (i : ℕ) → Move max_attempts (b.task i) (b'.task i)
  pub closes : Closes b b'

pub Progress-refl : (m : ℕ) (b : Build) → Progress m b b
Progress-refl m b = record {
  total = refl;
  edges = refl;
  moved = λ i. stayed refl refl;
  closes = inl refl;
}

kept_failed :
    (m : ℕ) (x y : Task) → Move m x y → is_failed x.state ≡ true → is_failed y.state ≡ true
kept_failed m x y move h = ap is_failed (Move-final m x y move (ground arith)) ∙ h

kept_finished :
    (m : ℕ) (x y : Task) → Move m x y → is_finished x.state ≡ true → is_finished y.state ≡ true
kept_finished m x y move h = ap is_finished (Move-final m x y move (ground arith)) ∙ h

kept_unfinished :
    (m : ℕ) (x y : Task)
    → Move m x y
    → not (is_finished y.state) ≡ true
    → not (is_finished x.state) ≡ true
kept_unfinished m x y move h = elim (Bool-cases (is_finished x.state)) [
  | inr going ↦ ap not going
  | inl final ↦ absurd (cc (h, kept_finished m x y move final))
]

-- What was judged stays so, since failed and finished tasks do.
pub Progress-IsJudged :
    (m : ℕ) (b b' : Build)
    → Progress m b b'
    → (b.state ≡ active) ⊎ IsJudged b
    → (b'.state ≡ active) ⊎ IsJudged b'
Progress-IsJudged m b b' p j = elim p.closes [
  | inr (a, judged) ↦ inr judged
  | inl same ↦ elim j [
    | inl a ↦ inl (same ∙ a)
    | inr (inl (e, bad)) ↦ inr (
        inl (
          same ∙ e,
          rw p.total (
              omega (
                arith,
                count_tasks_mono is_failed b.total b.task b'.task
                    (λ i h. kept_failed m (b.task i) (b'.task i) (p.moved i)),
              )),
        ))
    | inr (inr (e, none_left)) ↦ inr (
        inr (
          same ∙ e,
          rw p.total (
              omega (
                arith,
                count_tasks_mono (λ x. not (is_finished x)) b.total b'.task b.task
                    (λ i h. kept_unfinished m (b.task i) (b'.task i) (p.moved i)),
              )),
        ))
  ]
]

pub Progress-IsInOrder :
    (m : ℕ) (b b' : Build)
    → Progress m b b'
    → IsInOrder m b
    → Settled b' nothing_owed
    → IsInOrder m b'
Progress-IsInOrder m b b' p o settled = record {
  layered = (
    o.layered.0,
    subst (λ es. All (λ e. (e.dep < b'.total) × (o.layered.0 e.dep < o.layered.0 e.task)) es)
        (sym p.edges)
        (subst (λ n. All (λ e. (e.dep < n) × (o.layered.0 e.dep < o.layered.0 e.task)) b.edges)
          (sym p.total) o.layered.1),
  );
  settled = settled;
  judged = Progress-IsJudged m b b' p o.judged;
  bounded = λ i. Move-IsBounded m (b.task i) (b'.task i) (p.moved i) (o.bounded i);
}

-- Rows that keep what the counters depend on.
abbrev pub IsAlike : Task → Task → Type 0
IsAlike x y =
    (is_finished y.state ≡ is_finished x.state)
    × (is_waiting y.state ≡ is_waiting x.state)
    × (y.pending_deps ≡ x.pending_deps)

module _ (b b' : Build) (total : b'.total ≡ b.total) (edges : b'.edges ≡ b.edges)
    (alike : (i : ℕ) → IsAlike (b.task i) (b'.task i)) where
  pub Settled-IsAlike : {owed : ℕ → ℕ} → Settled b owed → Settled b' owed
  Settled-IsAlike v = record {
    pending = λ j h. ground (
      arith,
      alike j,
      v.pending j (rw total at h),
      unfinished-cong b'.task b.task j b.edges (λ i. (alike i).0),
      ap (unfinished b'.task j) edges,
    );
    waits = λ j h. ground (arith, alike j, v.waits j (rw total at h));
  }

  pub IsClosed-IsAlike : b'.state ≡ b.state → IsClosed b → IsClosed b'
  IsClosed-IsAlike same closed none_left a =
      let fewer =
        count_tasks_mono (λ x. not (is_finished x)) b.total b.task b'.task
          (λ i h e. ap not (alike i).0 ∙ e) in
      closed (omega (arith, fewer, rw total at none_left)) (sym same ∙ a)
