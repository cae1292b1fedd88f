-- ===== src/Coordinator/System/Live.antt =====
-- A build that is not over has a task that can go on.
use distcompile.Prelude.{
  ℕ, zero, suc, ◌<◌, ◌≡◌, ◌≢◌, refl, inl, inr, Bool, true, false, not, ◌&&◌, List, [], ◌∷◌, arith,
  ◌==◌, Bool-cases, All,
}
use distcompile.Coordinator.Rows.{
  State, Task, Edge, Build, active, is_open, is_finished, is_failed, is_waiting, count_tasks,
}
use distcompile.Coordinator.Finish.Counting.{unfinished, count_tasks-pos}
use distcompile.Coordinator.System.Builds.{IsInOrder, IsLevel}

count_tasks-some :
    (p : State → Bool) (n : ℕ) (task : ℕ → Task)
    → count_tasks p n task ≢ 0
    → (i : ℕ) × (i < n) × (p (task i).state ≡ true)
unfolding count_tasks
count_tasks-some p zero task some_count = absurd (some_count refl)
count_tasks-some p (suc n) task some_count = elim (Bool-cases (p (task n).state)) [
  | inl last ↦ (n, omega arith, last)
  | inr other ↦
      let (i, below, found) =
        count_tasks-some p n task (λ e. some_count (rw other (omega (arith, e)))) in
      (i, omega arith, found)
]

-- A task that lacks a dependency has an unfinished one.
unfinished-some :
    (P : Edge → Type 0) (task : ℕ → Task) (j : ℕ) (es : List Edge)
    → All P es
    → 0 < unfinished task j es
    → (e : Edge) × P e × (e.task ≡ j) × (is_finished (task e.dep).state ≡ false)
unfinished-some P task j [] h lacks = absurd (omega arith)
unfinished-some P task j (e ∷ es) h lacks =
    elim (Bool-cases (e.task == j && not (is_finished (task e.dep).state))) [
      | inl this ↦ (e, h.0, ground arith, ground arith)
      | inr other ↦ unfinished-some P task j es h.1 (ground (arith, other))
    ]

open_of :
    (s : State)
    → is_finished s ≡ false
    → is_waiting s ≡ false
    → is_failed s ≡ false
    → is_open s ≡ true
open_of s a b c = ground arith

module _ (m : ℕ) (b : Build) (o : IsInOrder m b) (level : IsLevel b)
    (going : b.state ≡ active) where
  not_failed : (i : ℕ) → i < b.total → is_failed (b.task i).state ≡ false
  not_failed i below = elim (Bool-cases (is_failed (b.task i).state)) [
    | inr fine ↦ fine
    | inl bad ↦
        absurd (omega (arith, level.1 going, count_tasks-pos is_failed b.total b.task i below bad))
  ]

  -- Down the dependencies of an unfinished task.
  descend :
      (fuel i : ℕ)
      → o.layered.0 i < fuel
      → i < b.total
      → is_finished (b.task i).state ≡ false
      → (j : ℕ) × (j < b.total) × (is_open (b.task j).state ≡ true)
  descend zero i low below e = absurd (omega arith)
  descend (suc fuel) i low below e = elim (Bool-cases (is_waiting (b.task i).state)) [
    | inr moving ↦ (i, below, open_of (b.task i).state e moving (not_failed i below))
    | inl waits ↦
        let lacks : 0 < unfinished b.task i b.edges =
          ground (arith, o.settled.waits i below, o.settled.pending i below, waits) in
        let (d, ranked, of_i, e') = unfinished-some _ b.task i b.edges o.layered.1 lacks in
        descend fuel d.dep (ground (arith, ranked, of_i)) ranked.0 e'
  ]

  pub IsInOrder-live : (j : ℕ) × (j < b.total) × (is_open (b.task j).state ≡ true)
  IsInOrder-live =
      let (i, below, e) =
        count_tasks-some (λ x. not (is_finished x)) b.total b.task
          (λ none_left. level.0 none_left going) in
      descend (suc (o.layered.0 i)) i (omega arith) below (ground arith)
