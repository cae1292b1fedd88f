-- ===== src/Coordinator/Submit/Order.antt =====
-- A build that was accepted starts in order, and leaves the cache without empty outputs.
use distcompile.Prelude.{
  suc, ◌∷◌, All, All-append, All-zip, All-map, map, length-map, ℕ, ◌+◌, ◌<◌, ◌≡◌, sym, ap, subst,
  ◌∙◌, inl, inr, Bool, true, some, List, [], Text, arith, ok, >>=-eq-ok, Bool-cases, Option-cases,
  is_empty, is_among, length, ◌⊎◌,
}
use distcompile.Prelude.Int.{ℤ, pos_part}
use distcompile.Graph.{topo_order}
use distcompile.Graph.Scan.{task_deps, deps_from}
use distcompile.Graph.Topo.{topo_order-IsTopological, topo_order-IsWellFormed, task_deps-below}
use distcompile.Graph.Acyclic.{position, position-rank}
use distcompile.Graph.Rank.{upward_rank}
use distcompile.Graph.Partition.{partition}
use distcompile.Coordinator.Rows.{Edge, Cache, active}
use distcompile.Coordinator.Finish.{Tx, maybe_finish}
use distcompile.Coordinator.Finish.Filled.{IsFilled, maybe_finish-cache}
use distcompile.Coordinator.Finish.Settled.{
  IsJudged, IsHonest, maybe_finish-IsHonest, maybe_finish-rows, maybe_finish-Closes,
}
use distcompile.Coordinator.Lifecycle.{IsBounded}
use distcompile.Coordinator.System.Builds.{IsInOrder, IsLevel, IsLayered}
use distcompile.Coordinator.Submit.{
  graph_task, all_edges, edges_of, TaskSpec, Draft, is_compile, spec_at, new_build, count_hits,
  hit_keys, read_specs, graph_result, submit_build,
}
use distcompile.Coordinator.Submit.Start.{
  read_specs-graph, graph_result-ok, spec_deps, submit-rows, submit_build-Settled,
}

-- What holds of every dependency of every task holds of the rows of task_deps.
module _ (P : ℕ → ℕ → Type 0) where
  edges_of-All :
      (id k : ℕ) (ds : List ℤ)
      → All (P id) (map pos_part ds)
      → All (λ e. P e.task e.dep) (edges_of id k ds)
  unfolding edges_of
  edges_of-All id k [] h = tt
  edges_of-All id k (d ∷ ds) h = (h.0, edges_of-All id (suc k) ds h.1)

  all_edges-All :
      (id : ℕ) (specs : List TaskSpec)
      → ((i : ℕ) → All (P (id + i)) (map pos_part (spec_at specs i).deps))
      → All (λ e. P e.task e.dep) (all_edges id specs)
  unfolding all_edges spec_at
  all_edges-All id [] h = tt
  all_edges-All id (ts ∷ specs) h =
      let first : id + 0 ≡ id = omega arith in
      All-append (λ e. P e.task e.dep) (edges_of id 0 ts.deps) (all_edges (suc id) specs)
        (edges_of-All id 0 ts.deps (subst (λ j. All (P j) (map pos_part ts.deps)) first (h 0)))
        (all_edges-All (suc id) specs (λ i.
          let later : id + suc i ≡ suc id + i = omega arith in
          subst (λ j. All (P j) (map pos_part (spec_at specs i).deps)) later (h (suc i))))

-- An order of the tasks that `topo_order` found ranks them.
abbrev IsRanked : List TaskSpec → (ℕ → ℕ) → Edge → Type 0
IsRanked specs rank e = (e.dep < length specs) × (rank e.dep < rank e.task)

edges-IsRanked :
    (specs : List TaskSpec) (order : List ℕ)
    → topo_order (map graph_task specs) ≡ ok order
    → All (IsRanked specs (position 0 order)) (all_edges 0 specs)
edges-IsRanked specs order e =
    let g = map graph_task specs in
    let rank = position 0 order in
    let top = topo_order-IsTopological g order e in
    let wf = topo_order-IsWellFormed g order e in
    all_edges-All (λ t d. (d < length specs) × (rank d < rank t)) 0 specs
      (λ i.
        let from_zero : 0 + i ≡ i = omega arith in
        let deps =
          subst (λ j. deps_from 0 g j ≡ map pos_part (spec_at specs i).deps) from_zero
            (spec_deps 0 i specs) in
        subst
          (λ j.
            All (λ d. (d < length specs) × (rank d < rank j)) (map pos_part (spec_at specs i).deps))
          (sym from_zero)
          (subst (All (λ d. (d < length specs) × (rank d < rank i))) deps (
            All-zip (λ d. d < length specs) (λ d. rank d < rank i) (task_deps g i)
              (All-map (λ d below. omega (arith, below, length-map graph_task specs))
                (task_deps g i) (task_deps-below g i wf))
              (position-rank g order top i))))

submit_build-new :
    (sha256 : Text → Text) (blob : Text → Bool) (parts : ℕ) (toolchain : Text)
    (specs : List TaskSpec) (cache : Cache) (s : Tx)
    → submit_build sha256 blob parts toolchain specs cache ≡ ok s
    → (rank : ℕ → ℤ) × (part : ℕ → ℕ) × (row : ℕ → Draft) × (order : ℕ → ℕ) × (s
        ≡ maybe_finish (new_build toolchain specs rank part cache row))
      × All (IsRanked specs order) (all_edges 0 specs)
unfolding submit_build
submit_build-new sha256 blob parts toolchain specs cache s e =
    let (g, read, found) = >>=-eq-ok (read_specs specs) _ e in
    let (order, ordered, accepted) = >>=-eq-ok (graph_result (topo_order g)) _ found in
    let (drafts, visited, same) =
      submit-rows sha256 blob toolchain specs order (upward_rank g) (partition g parts) cache s
        accepted in
    let sorted =
      subst (λ t. topo_order t ≡ ok order) (read_specs-graph specs g read)
        (graph_result-ok (topo_order g) order ordered) in
    (
      upward_rank g,
      partition g parts,
      drafts.row,
      position 0 order,
      same,
      edges-IsRanked specs order sorted,
    )

count_hits-IsFilled :
    (keys : List Text) (cache : Cache) → IsFilled cache → IsFilled (count_hits keys cache)
count_hits-IsFilled keys cache f k r e = elim (Option-cases (cache k)) [
  | inl miss ↦ absurd (cc (rw (miss, count_hits) at e))
  | inr (row, hit) ↦ elim (Bool-cases (is_among k keys)) [
    | inl counted ↦
        let same : some (record row { hits = row.hits + 1 }) ≡ some r =
          rw (hit, counted, count_hits) at e in
        let whole : record row { hits = row.hits + 1 } ≡ r = cc same in
        ap (λ z. is_empty z.output) (sym whole) ∙ f k row hit
    | inr other ↦
        let same : some row ≡ some r = rw (hit, other, count_hits) at e in
        let whole : row ≡ r = cc same in ap (λ z. is_empty z.output) (sym whole) ∙ f k row hit
  ]
]

module _ (max_attempts : ℕ) (some_attempts : 0 < max_attempts) (toolchain : Text)
    (specs : List TaskSpec) (rank : ℕ → ℤ) (part : ℕ → ℕ) (cache : Cache) (row : ℕ → Draft) where
  new_task-IsBounded :
      (i : ℕ)
      → IsBounded max_attempts
          ((maybe_finish (new_build toolchain specs rank part cache row)).build.task i)
  new_task-IsBounded i =
      let built = new_build toolchain specs rank part cache row in
      subst (λ f. IsBounded max_attempts (f i)) (sym (maybe_finish-rows built).2)
        (record { most = omega arith; less = λ h. omega (arith, some_attempts) })

  new_build-IsJudged :
      let b = (maybe_finish (new_build toolchain specs rank part cache row)).build in
      (b.state ≡ active) ⊎ IsJudged b
  new_build-IsJudged = elim (maybe_finish-Closes (new_build toolchain specs rank part cache row)) [
    | inl same ↦ inl same
    | inr (a, judged) ↦ inr judged
  ]

new_build-IsLayered :
    (toolchain : Text) (specs : List TaskSpec) (rank : ℕ → ℤ) (part : ℕ → ℕ) (cache : Cache)
    (row : ℕ → Draft) (order : ℕ → ℕ)
    → All (IsRanked specs order) (all_edges 0 specs)
    → IsLayered (maybe_finish (new_build toolchain specs rank part cache row)).build
new_build-IsLayered toolchain specs rank part cache row order ranked =
    let rows = maybe_finish-rows (new_build toolchain specs rank part cache row) in
    (order, rw (rows.0, rows.1) ranked)

pub submit_build-IsInOrder :
    (max_attempts : ℕ) (sha256 : Text → Text) (blob : Text → Bool) (parts : ℕ) (toolchain : Text)
    (specs : List TaskSpec) (cache : Cache) (s : Tx)
    → 0 < max_attempts
    → IsFilled cache
    → ((i : ℕ) → is_compile (spec_at specs i) ≡ true → (spec_at specs i).deps ≡ [])
    → submit_build sha256 blob parts toolchain specs cache ≡ ok s
    → IsInOrder max_attempts s.build × IsLevel s.build × IsFilled s.cache
submit_build-IsInOrder m sha256 blob parts toolchain specs cache s some_attempts filled leaf e =
    let start = submit_build-Settled sha256 blob parts toolchain specs cache s filled leaf e in
    let (rank, part, row, order, same, ranked) =
      submit_build-new sha256 blob parts toolchain specs cache s e in
    let built = new_build toolchain specs rank part cache row in
    (
      record {
        layered =
            subst (λ z. IsLayered z.build) (sym same)
              (new_build-IsLayered toolchain specs rank part cache row order ranked);
        settled = start.0;
        judged =
            subst (λ z. (z.build.state ≡ active) ⊎ IsJudged z.build) (sym same)
              (new_build-IsJudged m some_attempts toolchain specs rank part cache row);
        bounded = λ i.
            subst (λ z. IsBounded m (z.build.task i)) (sym same)
              (new_task-IsBounded m some_attempts toolchain specs rank part cache row i);
      },
      (start.1, subst (λ z. IsHonest z.build) (sym same) (maybe_finish-IsHonest built)),
      subst (λ z. IsFilled z.cache) (sym same)
          (subst IsFilled (sym (maybe_finish-cache built))
            (count_hits-IsFilled (hit_keys row (length specs)) cache filled)),
    )
