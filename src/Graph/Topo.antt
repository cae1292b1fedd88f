-- ===== src/Graph/Topo.antt =====
-- What `topo_order` returns, on every path.
use distcompile.Prelude.{
  ℕ, suc, ◌+◌, ◌≤◌, ◌<◌, ◌≡◌, refl, sym, ◌∙◌, inl, inr, List, [], ◌∷◌, map, some, arith, ◌==◌, ltb,
  if◌then◌else◌, Bool-cases, length, All, ok, >>=-eq-ok,
}
use distcompile.Prelude.Counts.{count, sum_below, sum_below-full, length-sum_below}
use distcompile.Prelude.Int.{ℤ, pos_part}
use distcompile.Graph.{GraphTask, no_edges, scan_tasks, sources, check_size, topo_order}
use distcompile.Graph.Scan.{
  task_deps, deps_from, IsGoodDep, IsWellFormedFrom, IsWellFormed, scan-edges, scan-accepts,
}
use distcompile.Graph.Kahn.{IsOrdered, count-push_all, Ended, kahn-Ended, sources-Inv}

-- Every task once, no other id, and each task behind its dependencies.
pub record IsTopological (t : List GraphTask) (order : List ℕ) : Type 0 where
  pub once : (i : ℕ) → count i order ≡ (if ltb i (length t) then 1 else 0)
  pub deps_first : IsOrdered (task_deps t) [] order

deps_from-above : (k : ℕ) (ts : List GraphTask) (i : ℕ) → k + length ts ≤ i → deps_from k ts i ≡ []
deps_from-above k [] i h = refl
deps_from-above k (t ∷ ts) i h = ground (arith, deps_from-above (suc k) ts i)

pub task_deps-above : (t : List GraphTask) (i : ℕ) → length t ≤ i → task_deps t i ≡ []
task_deps-above t i h = deps_from-above 0 t i (omega arith)

good_deps : (n i : ℕ) (ds : List ℤ) → All (IsGoodDep n i) ds → All (λ d. d < n) (map pos_part ds)
good_deps n i [] h = tt
good_deps n i (d ∷ ds) h = (h.0.1, good_deps n i ds h.1)

deps_from-below :
    (n k : ℕ) (ts : List GraphTask) (i : ℕ)
    → IsWellFormedFrom n k ts
    → All (λ d. d < n) (deps_from k ts i)
deps_from-below n k [] i h = tt
deps_from-below n k (t ∷ ts) i h = elim (Bool-cases (k == i)) [
  | inl here ↦ rw here (good_deps n k t.deps h.1)
  | inr other ↦ rw other (deps_from-below n (suc k) ts i h.2)
]

pub task_deps-below :
    (t : List GraphTask) (i : ℕ) → IsWellFormed t → All (λ d. d < length t) (task_deps t i)
task_deps-below t i wf = deps_from-below (length t) 0 t i wf

-- A run of `topo_order` behind the scan.
pub record Run (t : List GraphTask) : Type 0 where
  pub order : List ℕ
  pub ended : Ended (length t) (task_deps t) [] order
  pub result : topo_order t ≡ check_size (length t) (some order)

pub topo_order-Run : (t : List GraphTask) → IsWellFormed t → Run t
unfolding topo_order
topo_order-Run t wf =
    let n = length t in
    let (e, scanned) = scan-accepts t wf in
    let built = (scan-edges t e scanned).0 in
    let (order, runs, ended) =
      kahn-Ended n (task_deps t) e.succ (λ v i. omega (arith, built.edges v i)) (task_deps-above t)
        n [] (sources n 0 e.indeg) e.indeg
        (sources-Inv n (task_deps t) e.indeg (λ i. omega (arith, built.counts i))) (omega arith) in
    record { order = order; ended = ended; result = rw (scanned, runs) refl }

-- A result is there only behind a scan that passed every task.
pub topo_order-IsWellFormed :
    (t : List GraphTask) (order : List ℕ) → topo_order t ≡ ok order → IsWellFormed t
unfolding topo_order
topo_order-IsWellFormed t order h =
    let (e, scanned, _) = >>=-eq-ok (scan_tasks (length t) 0 t no_edges) _ h in
    (scan-edges t e scanned).1

check_size-ok :
    (n : ℕ) (l order : List ℕ) → check_size n (some l) ≡ ok order → (order ≡ l) × (length l ≡ n)
check_size-ok n l order h = ground arith

module _ (t : List GraphTask) (r : Run t) where
  open r use {order, ended}

  pub ended-count :
      (i : ℕ)
      → count i order ≡ (if ltb i (length t) then (if ended.last i == 0 then 1 else 0) else 0)
  ended-count i = omega (arith, ended.final.placed i, count-push_all i order [])

  pub ended-length : length order ≡ sum_below (length t) (λ i. count i order)
  ended-length = length-sum_below (length t) order (λ i le. ground (arith, ended-count i))

  pub full-once :
      length order ≡ length t → (i : ℕ) → count i order ≡ (if ltb i (length t) then 1 else 0)
  full-once full i = ground (
    arith,
    ended-count i,
    sum_below-full (length t) (λ a. count a order) (λ a. ground (arith, ended-count a))
        (omega (arith, ended-length)) i,
  )

-- What topo_order returns is a topological order of the whole list: it has every id below n once
-- and no other, and each task stands behind its dependencies.
pub topo_order-IsTopological :
    (t : List GraphTask) (order : List ℕ) → topo_order t ≡ ok order → IsTopological t order
topo_order-IsTopological t order h =
    let r = topo_order-Run t (topo_order-IsWellFormed t order h) in
    let (same, full) = check_size-ok (length t) r.order order (sym r.result ∙ h) in
    rw same (record { once = full-once t r full; deps_first = r.ended.ordered })
