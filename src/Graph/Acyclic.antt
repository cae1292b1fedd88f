-- ===== src/Graph/Acyclic.antt =====
-- When `topo_order` succeeds, and its errors.
use distcompile.Prelude.{
  ℕ, zero, suc, ◌+◌, ◌≤◌, ◌<◌, ◌≡◌, refl, sym, ◌∙◌, ◌↔◌, ◌⊎◌, inl, inr, List, [], ◌∷◌, some, arith,
  ◌==◌, if◌then◌else◌, Bool-cases, length, All, All-map, All-zip, ok, err, >>=-eq-err,
}
use distcompile.Prelude.Counts.{count, sum_below-ones}
use distcompile.Prelude.Int.{ℤ}
use native.Mathlib.Decide.{dec_lt}
use distcompile.Graph.{
  GraphTask, is_bad_dep, is_index, TopoError, bad_ids, bad_dependency, dependency_cycle, Edges,
  no_edges, scan_deps, scan_tasks, check_size, topo_order,
}
use distcompile.Graph.Scan.{task_deps, IsWellFormed, scan-edges, scan-accepts}
use distcompile.Graph.Topo.{
  IsTopological, Run, topo_order-Run, topo_order-IsWellFormed, topo_order-IsTopological,
  task_deps-above, task_deps-below, ended-count, ended-length,
}
use distcompile.Graph.Kahn.{missing-of_All, IsOrdered, push_all, count-push_all}

-- A rank that falls along every dependency, which is to say that there is no cycle.
abbrev pub IsAcyclic : List GraphTask → Type 0
IsAcyclic t = (rank : ℕ → ℕ) × ((i : ℕ) → All (λ d. rank d < rank i) (task_deps t i))

-- Where every task stands, counted from `k`.
abbrev pub position : ℕ → List ℕ → ℕ → ℕ
position k [] i = k
position k (v ∷ l) i = if v == i then k else position (suc k) l i

pub position-bound : (k : ℕ) (l : List ℕ) (i : ℕ) → 0 < count i l → position k l i < k + length l
position-bound k [] i h = absurd (omega arith)
position-bound k (v ∷ l) i h = ground (arith, position-bound (suc k) l i)

-- In an ordered list every dependency stands before the task that has it.
position-lt :
    (deps : ℕ → List ℕ) (f : ℕ → ℕ) (l seen : List ℕ) (k : ℕ)
    → IsOrdered deps seen l
    → ((d : ℕ) → 0 < count d seen → f d < k)
    → ((d : ℕ) → 0 < count d l → f d ≡ position k l d)
    → ((d : ℕ) → count d l + count d seen ≤ 1)
    → (i : ℕ) → 0 < count i l
    → All (λ d. f d < f i) (deps i)
position-lt deps f [] seen k o before here once i m = absurd (omega arith)
position-lt deps f (v ∷ l) seen k o before here once i m = elim (Bool-cases (v == i)) [
  | inl head ↦
      let at_v : v ≡ i = ground arith in
      rw (← at_v) (All-map (λ d has. omega (arith, before d has, here_v)) (deps v) o.0)
  | inr other ↦
      position-lt deps f l (v ∷ seen) (suc k) o.1 (λ d has. ground (arith, before d, here_v))
        (λ d has. ground (arith, here d, once v)) (λ d. ground (arith, once d)) i (ground arith)
]
  where
    here_v : f v ≡ k
    here_v = ground (arith, here v)

-- The two errors of the scan.
abbrev pub IsInvalid : TopoError → Type 0
IsInvalid x = (x ≡ bad_ids) ⊎ ((i : ℕ) × (d : ℤ) × (x ≡ bad_dependency i d))

check_size-err :
    (n : ℕ) (l : List ℕ) (x : TopoError) → check_size n (some l) ≡ err x → x ≡ dependency_cycle
check_size-err n l x h = ground arith

scan_deps-IsInvalid :
    (n i : ℕ) (ds : List ℤ) (e : Edges) (x : TopoError) → scan_deps n i ds e ≡ err x → IsInvalid x
unfolding scan_deps
scan_deps-IsInvalid n i [] e x h = absurd (cc)
scan_deps-IsInvalid n i (d ∷ ds) e x h = elim (Bool-cases (is_bad_dep n i d)) [
  | inl bad ↦ inr (i, d, cc (rw bad at h))
  | inr good ↦ scan_deps-IsInvalid n i ds _ x (rw good at h)
]

scan_tasks-IsInvalid :
    (n k : ℕ) (ts : List GraphTask) (e : Edges) (x : TopoError)
    → scan_tasks n k ts e ≡ err x
    → IsInvalid x
unfolding scan_tasks
scan_tasks-IsInvalid n k [] e x h = absurd (cc)
scan_tasks-IsInvalid n k (t ∷ ts) e x h = elim (Bool-cases (is_index t.id k)) [
  | inr other ↦ inl (cc (rw other at h))
  | inl same ↦ elim (>>=-eq-err (scan_deps n k t.deps e) _ (rw same at h)) [
    | inl here ↦ scan_deps-IsInvalid n k t.deps e x here
    | inr (mid, _, there) ↦ scan_tasks-IsInvalid n (suc k) ts mid x there
  ]
]

module _ (t : List GraphTask) (wf : IsWellFormed t) (acyclic : IsAcyclic t) (r : Run t) where
  open r use {order, ended}

  placed-of_zero : (d : ℕ) → d < length t → ended.last d ≡ 0 → 0 < count d (push_all order [])
  placed-of_zero d h none_left = ground (arith, ended-count t r d, count-push_all d order [])

  -- By induction on the rank: no task is left with a count.
  last-zero : (m i : ℕ) → acyclic.0 i < m → i < length t → ended.last i ≡ 0
  last-zero zero i below h = absurd (omega arith)
  last-zero (suc m) i below h =
      ended.final.waits i
      ∙ missing-of_All (push_all order []) (task_deps t i) (
          All-map (λ d k. placed-of_zero d k.1 (last-zero m d (omega arith) k.1)) (task_deps t i)
            (All-zip _ _ (task_deps t i) (acyclic.1 i) (task_deps-below t i wf)))

  run-full : length order ≡ length t
  run-full =
      ended-length t r
      ∙ sum_below-ones (length t) (λ i. count i order)
          (λ i h.
            ground (arith, ended-count t r i, last-zero (suc (acyclic.0 i)) i (omega arith) h))

topo_order-succeeds :
    (t : List GraphTask)
    → IsWellFormed t
    → IsAcyclic t
    → (order : List ℕ) × (topo_order t ≡ ok order)
topo_order-succeeds t wf acyclic =
    let r = topo_order-Run t wf in (r.order, r.result ∙ ground (arith, run-full t wf acyclic r))

pub position-rank :
    (t : List GraphTask) (order : List ℕ)
    → IsTopological t order
    → (i : ℕ) → All (λ d. position 0 order d < position 0 order i) (task_deps t i)
position-rank t order top i = elim (dec_lt i (length t)) [
  | yes below ↦
      position-lt (task_deps t) (position 0 order) order [] 0 top.deps_first
        (λ d h. absurd (omega arith)) (λ d h. refl) (λ d. ground (arith, top.once d)) i
        (ground (arith, top.once i))
  | no above ↦ rw (task_deps-above t i (omega arith)) tt
]

-- topo_order succeeds exactly when the ids are 0..n-1, every dependency is in range and not the
-- task itself, and there is no cycle: some rank of the tasks falls along every dependency.
pub topo_order_iff :
    (t : List GraphTask)
    → ((order : List ℕ) × (topo_order t ≡ ok order)) ↔ (IsWellFormed t × IsAcyclic t)
topo_order_iff t = (
  λ (order, h). (
    topo_order-IsWellFormed t order h,
    (position 0 order, position-rank t order (topo_order-IsTopological t order h)),
  ),
  λ (wf, acyclic). topo_order-succeeds t wf acyclic,
)

-- When topo_order fails: with the error for a cycle on a list that is well-formed and has a cycle,
-- and otherwise, on a list that is not well-formed, with an error of the scan. It never runs out
-- of fuel.
pub topo_order-err :
    (t : List GraphTask) (x : TopoError)
    → topo_order t ≡ err x
    → (IsWellFormed t × ¬ IsAcyclic t × (x ≡ dependency_cycle)) ⊎ (¬ IsWellFormed t × IsInvalid x)
unfolding topo_order
topo_order-err t x h = elim (>>=-eq-err (scan_tasks (length t) 0 t no_edges) _ h) [
  | inl bad ↦ inr (λ wf. cc (bad, (scan-accepts t wf).1), scan_tasks-IsInvalid _ 0 t _ x bad)
  | inr (e, scanned, _) ↦
      let wf = (scan-edges t e scanned).1 in
      let r = topo_order-Run t wf in
      inl (
        wf,
        λ acyclic. cc (h, (topo_order-succeeds t wf acyclic).1),
        check_size-err (length t) r.order x (sym r.result ∙ h),
      )
]
