-- ===== src/Graph/Scan.antt =====
-- What the first loop of `topo_order` builds: the dependency edges and their counts.
use distcompile.Prelude.{
  ℕ, suc, ◌+◌, ◌<◌, ◌≡◌, refl, ◌≢◌, inl, inr, true, false, List, [], ◌∷◌, map, arith, ◌==◌,
  if◌then◌else◌, Bool-cases, length, All, ok, >>=-eq-ok,
}
use distcompile.Prelude.Counts.{count, count-append}
use distcompile.Prelude.Int.{ℤ, pos, pos_part, neg_part}
use distcompile.Graph.{
  GraphTask, Edges, no_edges, add_edge, is_bad_dep, is_index, scan_deps, scan_tasks,
}

-- The dependencies of the task at index `i`, in a list that starts at index `k`.
abbrev pub deps_from : ℕ → List GraphTask → ℕ → List ℕ
deps_from k [] i = []
deps_from k (t ∷ ts) i = if k == i then map pos_part t.deps else deps_from (suc k) ts i

abbrev pub task_deps : List GraphTask → ℕ → List ℕ
task_deps = deps_from 0

-- "Ids must be 0..n-1, deps in range", and no task waits for itself.
abbrev pub IsGoodDep : ℕ → ℕ → ℤ → Type 0
IsGoodDep n i d = (neg_part d ≡ 0) × (pos_part d < n) × (pos_part d ≢ i)

abbrev pub IsWellFormedFrom : ℕ → ℕ → List GraphTask → Type 0
IsWellFormedFrom n k [] = Unit {0}
IsWellFormedFrom n k (t ∷ ts) =
    (t.id ≡ pos k) × All (IsGoodDep n k) t.deps × IsWellFormedFrom n (suc k) ts

abbrev pub IsWellFormed : List GraphTask → Type 0
IsWellFormed t = IsWellFormedFrom (length t) 0 t

-- An edge for each mention of a dependency, no more.
pub record Scanned (e e' : Edges) (deps : ℕ → List ℕ) : Type 0 where
  pub edges : (v i : ℕ) → count i (e'.succ v) ≡ count i (e.succ v) + count v (deps i)
  pub counts : (i : ℕ) → e'.indeg i ≡ e.indeg i + length (deps i)

is_bad_dep-false : (n i : ℕ) (d : ℤ) → is_bad_dep n i d ≡ false → IsGoodDep n i d
is_bad_dep-false n i d h = ground arith

is_bad_dep-good : (n i : ℕ) (d : ℤ) → IsGoodDep n i d → is_bad_dep n i d ≡ false
is_bad_dep-good n i d h = ground arith

is_index-true : (d : ℤ) (i : ℕ) → is_index d i ≡ true → d ≡ pos i
is_index-true d i h = ground arith

is_index-pos : (i : ℕ) → is_index (pos i) i ≡ true
is_index-pos i = ground arith

abbrev only_at : ℕ → List ℕ → ℕ → List ℕ
only_at i ds j = if i == j then ds else []

scan_deps-step :
    (n i : ℕ) (d : ℤ) (ds : List ℤ) (e e' : Edges)
    → scan_deps n i (d ∷ ds) e ≡ ok e'
    → IsGoodDep n i d × (scan_deps n i ds (add_edge (pos_part d) i e) ≡ ok e')
unfolding scan_deps
scan_deps-step n i d ds e e' h = elim (Bool-cases (is_bad_dep n i d)) [
  | inl bad ↦ absurd (cc (rw bad at h))
  | inr good ↦ (is_bad_dep-false n i d good, rw good at h)
]

add_edge-Scanned : (d i : ℕ) (e : Edges) → Scanned e (add_edge d i e) (only_at i (d ∷ []))
add_edge-Scanned d i e = record {
  edges = λ v j. ground (arith, count-append j (e.succ d) (i ∷ []));
  counts = λ j. ground arith;
}

scan_deps-Scanned :
    (n i : ℕ) (ds : List ℤ) (e e' : Edges)
    → scan_deps n i ds e ≡ ok e'
    → Scanned e e' (only_at i (map pos_part ds)) × All (IsGoodDep n i) ds
unfolding scan_deps
scan_deps-Scanned n i [] e e' h =
    (record { edges = λ v j. ground arith; counts = λ j. ground arith }, tt)
scan_deps-Scanned n i (d ∷ ds) e e' h =
    let (good, rest) = scan_deps-step n i d ds e e' h in
    let (later, all_good) = scan_deps-Scanned n i ds (add_edge (pos_part d) i e) e' rest in
    let first = add_edge-Scanned (pos_part d) i e in
    (
      record {
        edges = λ v j. ground (arith, later.edges v j, first.edges v j);
        counts = λ j. ground (arith, later.counts j, first.counts j);
      },
      (good, all_good),
    )

pub deps_from-before : (k : ℕ) (ts : List GraphTask) (i : ℕ) → i < k → deps_from k ts i ≡ []
deps_from-before k [] i h = refl
deps_from-before k (t ∷ ts) i h = ground (arith, deps_from-before (suc k) ts i)

scan_tasks-Scanned :
    (n k : ℕ) (ts : List GraphTask) (e e' : Edges)
    → scan_tasks n k ts e ≡ ok e'
    → Scanned e e' (deps_from k ts) × IsWellFormedFrom n k ts
unfolding scan_tasks
scan_tasks-Scanned n k [] e e' h =
    (record { edges = λ v j. ground arith; counts = λ j. ground arith }, tt)
scan_tasks-Scanned n k (t ∷ ts) e e' h = elim (Bool-cases (is_index t.id k)) [
  | inr other ↦ absurd (cc (rw other at h))
  | inl same ↦
      let (mid, here, there) = >>=-eq-ok (scan_deps n k t.deps e) _ (rw same at h) in
      let (first, good) = scan_deps-Scanned n k t.deps e mid here in
      let (later, rest) = scan_tasks-Scanned n (suc k) ts mid e' there in
      let alone = deps_from-before (suc k) ts k (omega arith) in
      (
        record {
          edges = λ v j. ground (arith, later.edges v j, first.edges v j, alone);
          counts = λ j. ground (arith, later.counts j, first.counts j, alone);
        },
        (is_index-true t.id k same, good, rest),
      )
]

scan_deps-accepts :
    (n i : ℕ) (ds : List ℤ) (e : Edges)
    → All (IsGoodDep n i) ds
    → (e' : Edges) × (scan_deps n i ds e ≡ ok e')
unfolding scan_deps
scan_deps-accepts n i [] e h = (e, refl)
scan_deps-accepts n i (d ∷ ds) e h =
    let (e', rest) = scan_deps-accepts n i ds (add_edge (pos_part d) i e) h.1 in
    (e', rw (is_bad_dep-good n i d h.0) rest)

scan_tasks-accepts :
    (n k : ℕ) (ts : List GraphTask) (e : Edges)
    → IsWellFormedFrom n k ts
    → (e' : Edges) × (scan_tasks n k ts e ≡ ok e')
unfolding scan_tasks
scan_tasks-accepts n k [] e h = (e, refl)
scan_tasks-accepts n k (t ∷ ts) e h =
    let (mid, here) = scan_deps-accepts n k t.deps e h.1 in
    let (e', there) = scan_tasks-accepts n (suc k) ts mid h.2 in
    (e', rw (h.0, is_index-pos k, here) there)

-- The scan of the whole list, from empty vectors.
pub scan-edges :
    (t : List GraphTask) (e : Edges)
    → scan_tasks (length t) 0 t no_edges ≡ ok e
    → Scanned no_edges e (task_deps t) × IsWellFormed t
scan-edges t e h = scan_tasks-Scanned (length t) 0 t no_edges e h

pub scan-accepts :
    (t : List GraphTask)
    → IsWellFormed t
    → (e : Edges) × (scan_tasks (length t) 0 t no_edges ≡ ok e)
scan-accepts t h = scan_tasks-accepts (length t) 0 t no_edges h
