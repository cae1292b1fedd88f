-- ===== src/Graph/Rank/Chain.antt =====
-- The upward rank against its description: "a task's own cost plus the most expensive chain of
-- tasks that waits on it".
use distcompile.Prelude.{
  ℕ, zero, suc, ◌+◌, ◌-◌, ◌≤◌, ◌<◌, ◌≡◌, refl, ap, ◌∙◌, ◌⊎◌, inl, inr, List, [], ◌∷◌, ◌++◌, map,
  arith, ◌==◌, if◌then◌else◌, Bool-cases, length, All, ok,
}
use distcompile.Prelude.Counts.{All-count, count, count-append}
use distcompile.Prelude.Int.{
  ℤ, pos, pos_part, ◌+ℤ◌, max_ℤ, max_ℤ-cases, ◌≤ℤ◌, ≤ℤ-max_left, ≤ℤ-max_right, int_laws, +ℤ-zero,
}
use native.Mathlib.Decide.{dec_lt}
use distcompile.Graph.{GraphTask, update, topo_order}
use distcompile.Graph.Scan.{task_deps, deps_from, deps_from-before, IsWellFormedFrom}
use distcompile.Graph.Kahn.{IsOrdered}
use distcompile.Graph.Topo.{
  IsTopological, topo_order-IsTopological, topo_order-IsWellFormed, task_deps-above,
}
use distcompile.Graph.Acyclic.{position, position-bound, position-rank}
use distcompile.Graph.Rank.{push_succs, successors, best_of, task_cost, rank_loop, upward_rank}

-- A chain of tasks that starts at a task, each waiting for the one before, and its summed cost.
pub data Chain (t : List GraphTask) : ℕ → ℤ → Type 0 where
  alone : {i : ℕ} {c : ℤ} → c ≡ task_cost t i → Chain t i c
  before :
      {i j : ℕ} {c c' : ℤ}
      → 0 < count i (task_deps t j)
      → Chain t j c
      → c' ≡ task_cost t i +ℤ c
      → Chain t i c'

push_succs-count :
    (i : ℕ) (ds : List ℤ) (succ : ℕ → List ℕ) (v j : ℕ)
    → count j (push_succs i ds succ v)
      ≡ count j (succ v) + (if i == j then count v (map pos_part ds) else 0)
unfolding push_succs
push_succs-count i [] succ v j = ground arith
push_succs-count i (d ∷ ds) succ v j = ground (
  arith,
  count-append j (succ (pos_part d)) (i ∷ []),
  push_succs-count i ds (update succ (pos_part d) (succ (pos_part d) ++ i ∷ [])) v j,
)

successors-count :
    (n k : ℕ) (ts : List GraphTask) (succ : ℕ → List ℕ) (v j : ℕ)
    → IsWellFormedFrom n k ts
    → count j (successors ts succ v) ≡ count j (succ v) + count v (deps_from k ts j)
unfolding successors
successors-count n k [] succ v j wf = omega arith
successors-count n k (x ∷ xs) succ v j wf =
    let at_k : pos_part x.id ≡ k = ap pos_part wf.0 in
    rw at_k (
      ground (
        arith,
        push_succs-count k x.deps succ v j,
        deps_from-before (suc k) xs k,
        successors-count n (suc k) xs (push_succs k x.deps succ) v j wf.2,
      ))

best_of-ge : (rank : ℕ → ℤ) (ss : List ℕ) (b : ℤ) → b ≤ℤ best_of rank ss b
unfolding best_of
best_of-ge rank [] b = omega arith
best_of-ge rank (s ∷ ss) b =
    omega (arith, ≤ℤ-max_left b (rank s), best_of-ge rank ss (max_ℤ b (rank s)))

best_of-mem :
    (rank : ℕ → ℤ) (ss : List ℕ) (b : ℤ) (s : ℕ) → 0 < count s ss → rank s ≤ℤ best_of rank ss b
unfolding best_of
best_of-mem rank [] b s h = absurd (omega arith)
best_of-mem rank (x ∷ ss) b s h = elim (Bool-cases (x == s)) [
  | inl here ↦
      let same : x ≡ s = ground arith in
      rw (← same) (omega (arith, ≤ℤ-max_right b (rank x), best_of-ge rank ss (max_ℤ b (rank x))))
  | inr other ↦ best_of-mem rank ss (max_ℤ b (rank x)) s (ground arith)
]

best_of-attained :
    (rank : ℕ → ℤ) (ss : List ℕ) (b : ℤ)
    → (best_of rank ss b ≡ b) ⊎ ((s : ℕ) × (0 < count s ss) × (best_of rank ss b ≡ rank s))
unfolding best_of
best_of-attained rank [] b = inl refl
best_of-attained rank (x ∷ ss) b = elim (best_of-attained rank ss (max_ℤ b (rank x))) [
  | inr (s, m, e) ↦ inr (s, omega arith, e)
  | inl e ↦ elim (max_ℤ-cases b (rank x)) [
    | inl old ↦ inl (e ∙ old)
    | inr new ↦ inr (x, ground arith, e ∙ new)
  ]
]

best_of-update :
    (rank : ℕ → ℤ) (v : ℕ) (x : ℤ) (ss : List ℕ) (b : ℤ)
    → count v ss ≡ 0
    → best_of (update rank v x) ss b ≡ best_of rank ss b
unfolding best_of
best_of-update rank v x [] b h = refl
best_of-update rank v x (s ∷ ss) b h = ground (arith, best_of-update rank v x ss (max_ℤ b (rank s)))

-- An id that is not in `seen` is not in a list of ids that are.
count-of_All :
    (i : ℕ) (seen ds : List ℕ) → All (λ d. 0 < count d seen) ds → count i seen ≡ 0 → count i ds ≡ 0
count-of_All i seen [] h absent = refl
count-of_All i seen (d ∷ ds) h absent = ground (arith, count-of_All i seen ds h.1 absent)

module _ (t : List GraphTask) (succ : ℕ → List ℕ)
    (edges : (v j : ℕ) → count j (succ v) ≡ count v (task_deps t j)) where
  -- The equation of the rank, for every task of an ordered list.
  rank_loop-eq :
      (l seen : List ℕ)
      → IsOrdered (task_deps t) seen l
      → ((i : ℕ) → count i l + count i seen ≤ 1)
      → (i : ℕ) → 0 < count i l
      → rank_loop t succ l i ≡ task_cost t i +ℤ best_of (rank_loop t succ l) (succ i) (pos 0)
  unfolding rank_loop
  rank_loop-eq [] seen o once i m = absurd (omega arith)
  rank_loop-eq (v ∷ l) seen o once i m =
      let rank = rank_loop t succ l in
      let x = task_cost t v +ℤ best_of rank (succ v) (pos 0) in
      let apart : count v (succ i) ≡ 0 =
        edges i v ∙ count-of_All i seen (task_deps t v) o.0 (omega (arith, once i)) in
      rw (best_of-update rank v x (succ i) (pos 0) apart)
        (ground (arith, rank_loop-eq l (v ∷ seen) o.1 (λ d. ground (arith, once d)) i))

-- Which ranks the code computes, where it has an order.
record Ranked (t : List GraphTask) : Type 0 where
  succ : ℕ → List ℕ
  edges : (v j : ℕ) → count j (succ v) ≡ count v (task_deps t j)
  step :
      (i : ℕ)
      → i < length t
      → upward_rank t i ≡ task_cost t i +ℤ best_of (upward_rank t) (succ i) (pos 0)

upward_rank-Ranked : (t : List GraphTask) (order : List ℕ) → topo_order t ≡ ok order → Ranked t
unfolding upward_rank
upward_rank-Ranked t order h = record {
  succ = succ;
  edges = edges;
  step = λ i below.
      rw (h, upward_rank)
        (rank_loop-eq t succ edges order [] top.deps_first (λ d. ground (arith, top.once d)) i
          (ground (arith, top.once i)));
}
  where
    top : IsTopological t order
    top = topo_order-IsTopological t order h

    succ : ℕ → List ℕ
    succ = successors t (λ i. [])

    edges : (v j : ℕ) → count j (succ v) ≡ count v (task_deps t j)
    edges v j =
        omega
          (arith, successors-count (length t) 0 t (λ i. []) v j (topo_order-IsWellFormed t order h))

module _ (t : List GraphTask) (r : Ranked t) where
  open r use {succ, edges, step}

  below-of_dep : (i j : ℕ) → 0 < count i (task_deps t j) → j < length t
  below-of_dep i j h = elim (dec_lt j (length t)) [
    | yes below ↦ below
    | no above ↦ absurd (omega (arith, ap (count i) (task_deps-above t j (omega arith))))
  ]

  chain-le : {i : ℕ} {c : ℤ} → Chain t i c → i < length t → c ≤ℤ upward_rank t i
  chain-le {i} {c} (alone e) below =
      rw (e, step i below) (omega (int_laws, best_of-ge (upward_rank t) (succ i) (pos 0)))
  chain-le {i} {c} (before {j = j} {c = b} dep rest e) below =
      rw (e, step i below)
        (omega (
          int_laws,
          chain-le rest (below-of_dep i j dep),
          best_of-mem (upward_rank t) (succ i) (pos 0) j (omega (arith, edges i j)),
        ))

  -- The tasks that wait stand later in the order, so this goes down.
  rank-Chain :
      (f : ℕ → ℕ) (n : ℕ)
      → ((i : ℕ) → All (λ d. f d < f i) (task_deps t i))
      → ((i : ℕ) → i < length t → f i < n)
      → (m i : ℕ) → n - f i < m
      → i < length t
      → Chain t i (upward_rank t i)
  rank-Chain f n falls top zero i fuel below = absurd (omega arith)
  rank-Chain f n falls top (suc m) i fuel below =
      elim (best_of-attained (upward_rank t) (succ i) (pos 0)) [
        | inl none_waits ↦
            alone (step i below ∙ ap (◌+ℤ◌ (task_cost t i)) none_waits ∙ +ℤ-zero (task_cost t i))
        | inr (s, waits, e) ↦
            let dep : 0 < count i (task_deps t s) = omega (arith, edges i s) in
            let near = below-of_dep i s dep in
            before dep
              (rank-Chain f n falls top m s
                (omega
                  (arith, top s near, All-count (λ d. f d < f s) i (task_deps t s) (falls s) dep))
                near)
              (step i below ∙ ap (◌+ℤ◌ (task_cost t i)) e)
      ]

-- Where the code finds an order, the rank of a task is the cost of the most expensive chain of tasks
-- that starts at it: some chain costs that much, and no chain costs more.
pub upward_rank-IsCriticalPath :
    (t : List GraphTask) (order : List ℕ) (i : ℕ)
    → topo_order t ≡ ok order
    → i < length t
    → Chain t i (upward_rank t i) × ((c : ℤ) → Chain t i c → c ≤ℤ upward_rank t i)
upward_rank-IsCriticalPath t order i h below =
    let r = upward_rank-Ranked t order h in
    let top = topo_order-IsTopological t order h in
    (
      rank-Chain t r (position 0 order) (length order) (position-rank t order top)
          (λ j near. omega (arith, position-bound 0 order j (ground (arith, top.once j))))
          (suc (length order - position 0 order i)) i (omega arith) below,
      λ c chain. chain-le t r chain below,
    )
