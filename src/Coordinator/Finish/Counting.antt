-- ===== src/Coordinator/Finish/Counting.antt =====
-- Counts over the rows of a build: unfinished dependencies, dependents, tasks in a state.
use distcompile.Prelude.{
  update, ℕ, zero, suc, ◌+◌, ◌≤◌, ◌<◌, ◌≡◌, refl, Bool, true, false, ◌&&◌, not, List, [], ◌∷◌,
  arith, ltb, ◌==◌, if◌then◌else◌,
}
use distcompile.Prelude.Counts.{count, count-append}
use distcompile.Coordinator.Rows.{State, Task, Edge, Build, is_finished, count_tasks}
use distcompile.Coordinator.Finish.{count_edges, repeat, dependents_from, dependents}

-- How many rows of task_deps make `t` wait for a task that is not finished.
abbrev pub unfinished : (ℕ → Task) → ℕ → List Edge → ℕ
unfinished task t [] = 0
unfinished task t (e ∷ es) =
    (if e.task == t && not (is_finished (task e.dep).state) then 1 else 0) + unfinished task t es

-- When a task gets finished, each of its edges counts one less.
pub unfinished-finish :
    (task : ℕ → Task) (x : ℕ) (r : Task) (t : ℕ) (es : List Edge)
    → is_finished (task x).state ≡ false
    → is_finished r.state ≡ true
    → unfinished (update task x r) t es + count_edges t x es ≡ unfinished task t es
unfolding count_edges
unfinished-finish task x r t [] old new = refl
unfinished-finish task x r t (e ∷ es) old new =
    ground (arith, unfinished-finish task x r t es old new)

pub unfinished-same :
    (task : ℕ → Task) (x : ℕ) (r : Task) (t : ℕ) (es : List Edge)
    → is_finished r.state ≡ is_finished (task x).state
    → unfinished (update task x r) t es ≡ unfinished task t es
unfinished-same task x r t [] same = refl
unfinished-same task x r t (e ∷ es) same = ground (arith, unfinished-same task x r t es same)

count-repeat : (a n t : ℕ) → count a (repeat n t) ≡ (if t == a then n else 0)
count-repeat a zero t = ground arith
count-repeat a (suc n) t = ground (arith, count-repeat a n t)

dependents_from-count :
    (es : List Edge) (d k i a : ℕ)
    → count a (dependents_from es d k i)
      ≡ (if ltb a i then 0 else if ltb a (i + k) then count_edges a d es else 0)
unfolding dependents_from
dependents_from-count es d zero i a = ground arith
dependents_from-count es d (suc k) i a = ground (
  arith,
  count-append a (repeat (count_edges i d es) i) (dependents_from es d k (suc i)),
  count-repeat a (count_edges i d es) i,
  dependents_from-count es d k (suc i) a,
)

-- Each task of the build stands among the dependents as often as it waits for `d`.
pub dependents-count :
    (b : Build) (d a : ℕ)
    → count a (dependents b d) ≡ (if ltb a b.total then count_edges a d b.edges else 0)
unfolding dependents
dependents-count b d a = ground (arith, dependents_from-count b.edges d b.total 0 a)

-- Writing one row changes a count by that row.
pub count_tasks-update :
    (p : State → Bool) (n : ℕ) (task : ℕ → Task) (x : ℕ) (r : Task)
    → count_tasks p n (update task x r)
        + (if ltb x n then (if p (task x).state then 1 else 0) else 0)
      ≡ count_tasks p n task + (if ltb x n then (if p r.state then 1 else 0) else 0)
unfolding count_tasks
count_tasks-update p zero task x r = ground arith
count_tasks-update p (suc n) task x r = ground (arith, count_tasks-update p n task x r)

pub count_tasks-pos :
    (p : State → Bool) (n : ℕ) (task : ℕ → Task) (x : ℕ)
    → x < n
    → p (task x).state ≡ true
    → 0 < count_tasks p n task
unfolding count_tasks
count_tasks-pos p zero task x h e = absurd (omega arith)
count_tasks-pos p (suc n) task x h e = ground (arith, count_tasks-pos p n task x)

pub count_tasks-le : (p : State → Bool) (n : ℕ) (task : ℕ → Task) → count_tasks p n task ≤ n
unfolding count_tasks
count_tasks-le p zero task = omega arith
count_tasks-le p (suc n) task = ground (arith, count_tasks-le p n task)

pub unfinished-cong :
    (f g : ℕ → Task) (t : ℕ) (es : List Edge)
    → ((j : ℕ) → is_finished (f j).state ≡ is_finished (g j).state)
    → unfinished f t es ≡ unfinished g t es
unfinished-cong f g t [] h = refl
unfinished-cong f g t (e ∷ es) h = ground (arith, h e.dep, unfinished-cong f g t es h)

pub count_tasks_mono :
    (p : State → Bool) (n : ℕ) (f g : ℕ → Task)
    → ((i : ℕ) → i < n → p (f i).state ≡ true → p (g i).state ≡ true)
    → count_tasks p n f ≤ count_tasks p n g
unfolding count_tasks
count_tasks_mono p zero f g h = omega arith
count_tasks_mono p (suc n) f g h =
    ground (arith, h n, count_tasks_mono p n f g (λ i below. h i (omega arith)))
