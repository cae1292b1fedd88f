-- ===== src/Graph.antt =====
-- graph.h and graph.cpp: dependency order, upward rank and partitioning of a build's tasks.
-- A vector that is indexed by task ids is a function of the id; every id that the code uses as an
-- index was checked against the size by the first loop of `topo_order`.

pub mod Scan
pub mod Kahn
pub mod Topo
pub mod Acyclic
pub mod Rank
pub mod Partition
pub use distcompile.Prelude.{update}
use distcompile.Prelude.{
  ℕ, zero, suc, ◌+◌, ◌-◌, Bool, false, ◌||◌, Option, none, some, List, [], ◌∷◌, ◌++◌, ltb, leb,
  ◌==◌, if◌then◌else◌, length, Result, ok, err, ◌>>=◌,
}
use distcompile.Prelude.Int.{ℤ, pos, pos_part, neg_part, ltb_ℤ}

pub record GraphTask : Type 0 where
  pub id : ℤ
  pub kind : ℕ
  pub cost : ℤ
  pub deps : List ℤ

pub data TopoError : Type 0 where
  bad_ids : TopoError
  bad_dependency : ℕ → ℤ → TopoError
  dependency_cycle : TopoError
  out_of_fuel : TopoError

-- The vectors `succ` and `indeg` of `topo_order`.
pub record Edges : Type 0 where
  pub succ : ℕ → List ℕ
  pub indeg : ℕ → ℕ

abbrev pub no_edges : Edges
no_edges = record { succ = λ i. []; indeg = λ i. 0 }

-- Integer tests against an index: `d < 0 || d >= n || d == i`, and `t[i].id != i`.
abbrev pub is_negative : ℤ → Bool
is_negative d = ltb 0 (neg_part d)

abbrev pub is_bad_dep : ℕ → ℕ → ℤ → Bool
is_bad_dep n i d = is_negative d || leb n (pos_part d) || (pos_part d == i)

abbrev pub is_index : ℤ → ℕ → Bool
is_index d i = if is_negative d then false else pos_part d == i

-- `succ[d].push_back(i); indeg[i]++`
abbrev pub add_edge : ℕ → ℕ → Edges → Edges
add_edge d i e = record {
  succ = update e.succ d (e.succ d ++ i ∷ []);
  indeg = update e.indeg i (e.indeg i + 1);
}

-- The loop over `t[i].deps`.
unfoldable pub scan_deps : ℕ → ℕ → List ℤ → Edges → Result TopoError Edges
scan_deps n i [] e = ok e
scan_deps n i (d ∷ ds) e =
    let rest = scan_deps n i ds (add_edge (pos_part d) i e) in
    if is_bad_dep n i d then err (bad_dependency i d) else rest

-- The first loop of `topo_order`, from index `i` on.
unfoldable pub scan_tasks : ℕ → ℕ → List GraphTask → Edges → Result TopoError Edges
scan_tasks n i [] e = ok e
scan_tasks n i (t ∷ ts) e =
    if is_index t.id i
    then (do e' ← scan_deps n i t.deps e; scan_tasks n (suc i) ts e')
    else err bad_ids

-- The tasks from `i` on, `k` of them, that wait on nothing.
unfoldable pub sources : ℕ → ℕ → (ℕ → ℕ) → List ℕ
sources zero i indeg = []
sources (suc k) i indeg =
    let rest = sources k (suc i) indeg in if indeg i == 0 then i ∷ rest else rest

-- The loop over `succ[order[k]]`: the new counts, and what is pushed. `--indeg[s] == 0` holds when
-- the count was 1.
unfoldable pub relax : List ℕ → (ℕ → ℕ) → (ℕ → ℕ) × List ℕ
relax [] indeg = (indeg, [])
relax (s ∷ ss) indeg =
    let (counts, pushed) = relax ss (update indeg s (indeg s - 1)) in
    (counts, if indeg s == 1 then s ∷ pushed else pushed)

-- The loop over `order`, from the entry at which it stands: `pending` is the part of `order` that
-- it has not reached. The result is that part of the final `order`; `none` is out of fuel.
unfoldable pub kahn : ℕ → (ℕ → List ℕ) → List ℕ → (ℕ → ℕ) → Option (List ℕ)
kahn zero succ [] indeg = some []
kahn zero succ (v ∷ rest) indeg = none
kahn (suc fuel) succ [] indeg = some []
kahn (suc fuel) succ (v ∷ rest) indeg =
    let (counts, pushed) = relax (succ v) indeg in
    elim (kahn fuel succ (rest ++ pushed) counts) [ none ↦ none | some order ↦ some (v ∷ order) ]

abbrev pub check_size : ℕ → Option (List ℕ) → Result TopoError (List ℕ)
check_size n none = err out_of_fuel
check_size n (some order) = if length order == n then ok order else err dependency_cycle

unfoldable pub topo_order : List GraphTask → Result TopoError (List ℕ)
unfolding scan_tasks scan_deps sources relax kahn
topo_order t =
    let n = length t in
    do e ← scan_tasks n 0 t no_edges; check_size n (kahn n e.succ (sources n 0 e.indeg) e.indeg)
