-- ===== src/Graph/Rank.antt =====
-- `upward_rank` of graph.cpp.
pub mod Chain
use distcompile.Prelude.{ℕ, zero, suc, List, [], ◌∷◌, ◌++◌, Result, ok, err}
use distcompile.Prelude.Int.{ℤ, pos, pos_part, ◌+ℤ◌, max_ℤ}
use distcompile.Graph.{GraphTask, update, topo_order}

-- `succ[d].push_back(x.id)` for every dependency of `x`.
unfoldable pub push_succs : ℕ → List ℤ → (ℕ → List ℕ) → ℕ → List ℕ
push_succs i [] succ = succ
push_succs i (d ∷ ds) succ =
    push_succs i ds (update succ (pos_part d) (succ (pos_part d) ++ i ∷ []))

unfoldable pub successors : List GraphTask → (ℕ → List ℕ) → ℕ → List ℕ
unfolding push_succs
successors [] succ = succ
successors (x ∷ xs) succ = successors xs (push_succs (pos_part x.id) x.deps succ)

-- `best = std::max(best, rank[s])` over the successors.
unfoldable pub best_of : (ℕ → ℤ) → List ℕ → ℤ → ℤ
best_of rank [] best = best
best_of rank (s ∷ ss) best = best_of rank ss (max_ℤ best (rank s))

-- `t[i].cost`
unfoldable pub task_cost : List GraphTask → ℕ → ℤ
task_cost [] i = pos 0
task_cost (t ∷ ts) zero = t.cost
task_cost (t ∷ ts) (suc i) = task_cost ts i

-- The loop from the end of `order` to its start.
unfoldable pub rank_loop : List GraphTask → (ℕ → List ℕ) → List ℕ → ℕ → ℤ
unfolding task_cost best_of
rank_loop t succ [] = λ i. pos 0
rank_loop t succ (i ∷ order) =
    let rank = rank_loop t succ order in
    update rank i (task_cost t i +ℤ best_of rank (succ i) (pos 0))

-- An empty order leaves every rank at 0.
unfoldable pub upward_rank : List GraphTask → ℕ → ℤ
unfolding topo_order successors rank_loop
upward_rank t = elim (topo_order t) [
  | ok order ↦ rank_loop t (successors t (λ i. [])) order
  | err x ↦ λ i. pos 0
]
