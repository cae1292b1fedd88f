-- ===== src/Coordinator/Submit/Start.antt =====
-- The rows of a build that was accepted.
use mathlib.Core.Path.{fun_ext}
use distcompile.Cas.{valid_hash}
use distcompile.Prelude.{
  ok-injective, ◌&&◌, ◌||◌, length-map, ℕ, zero, suc, ◌+◌, ◌<◌, ◌≡◌, refl, sym, ap, ◌∙◌, subst, inl,
  inr, Bool, true, false, not, List, [], ◌∷◌, ◌++◌, map, Text, arith, ◌==◌, if◌then◌else◌, length,
  Result, ok, err, >>=-eq-ok, Bool-cases,
}
use distcompile.Prelude.Counts.{count}
use distcompile.Prelude.Int.{ℤ, pos_part}
use distcompile.Graph.{GraphTask, TopoError, topo_order}
use distcompile.Graph.Scan.{deps_from}
use distcompile.Graph.Kahn.{IsOrdered}
use distcompile.Graph.Topo.{IsTopological, topo_order-IsTopological}
use distcompile.Graph.Rank.{upward_rank}
use distcompile.Graph.Partition.{partition}
use distcompile.Coordinator.Rows.{Task, Edge, Cache}
use distcompile.Coordinator.Finish.{Tx, maybe_finish}
use distcompile.Coordinator.Finish.Counting.{unfinished}
use distcompile.Coordinator.Finish.Settled.{
  Settled, Settled-rows, IsClosed, maybe_finish-rows, maybe_finish-IsClosed,
}
use distcompile.Coordinator.Complete.Invariant.{nothing_owed}
use distcompile.Coordinator.Submit.{
  TaskSpec, SubmitError, db_error, Draft, Drafts, is_compile, spec_at, first_drafts, new_build,
  new_task, edges_of, all_edges, has_twin, visit_all, submit, read_specs, graph_task, graph_result,
  submit_build, compile_keys,
}
use distcompile.Coordinator.Finish.Filled.{IsFilled}
use distcompile.Coordinator.Submit.Counters.{open_deps, Loop, visit_all-Loop, first_hits-filled}

taken :
    (b : Bool) (t s : Tx)
    → ◌≡◌ {A = Result SubmitError Tx} (if b then err db_error else ok t) (ok s)
    → s ≡ t
taken true t s e = cc
taken false t s e = sym (ok-injective e)

-- What an accepted build is made of.
pub submit-rows :
    (sha256 : Text → Text) (blob : Text → Bool) (toolchain : Text) (specs : List TaskSpec)
    (order : List ℕ) (rank : ℕ → ℤ) (part : ℕ → ℕ) (cache : Cache) (s : Tx)
    → submit sha256 blob toolchain specs order rank part cache ≡ ok s
    → (drafts : Drafts) × (visit_all sha256 toolchain
          (spec_at specs)
          blob
          cache
          order
          (first_drafts cache specs)
        ≡ ok drafts)
      × (s ≡ maybe_finish (new_build toolchain specs rank part cache drafts.row))
unfolding submit
submit-rows sha256 blob toolchain specs order rank part cache s e =
    let (drafts, visited, rest) =
      >>=-eq-ok
        (visit_all sha256 toolchain (spec_at specs) blob cache order (first_drafts cache specs)) _
        e in
    (
      drafts,
      visited,
      taken (has_twin (all_edges 0 specs))
          (maybe_finish (new_build toolchain specs rank part cache drafts.row)) s rest,
    )

pub read_specs-graph :
    (specs : List TaskSpec) (g : List GraphTask)
    → read_specs specs ≡ ok g
    → g ≡ map graph_task specs
unfolding read_specs
read_specs-graph [] g e = sym (ok-injective e)
read_specs-graph (ts ∷ specs) g e =
    elim (Bool-cases (is_compile ts && (not (valid_hash ts.key) || not (valid_hash ts.input)))) [
      | inl bad ↦ absurd (cc (rw (bad, read_specs) at e))
      | inr fine ↦
          let (gs, read, same) = >>=-eq-ok (read_specs specs) _ (rw (fine, read_specs) at e) in
          sym (ok-injective same) ∙ ap (λ l. graph_task ts ∷ l) (read_specs-graph specs gs read)
    ]

pub spec_deps :
    (k i : ℕ) (specs : List TaskSpec)
    → deps_from k (map graph_task specs) (k + i) ≡ map pos_part (spec_at specs i).deps
unfolding spec_at
spec_deps k i [] = refl
spec_deps k zero (ts ∷ specs) = ground arith
spec_deps k (suc i) (ts ∷ specs) = ground (arith, spec_deps (suc k) i specs)

unfinished-append :
    (task : ℕ → Task) (j : ℕ) (es fs : List Edge)
    → unfinished task j (es ++ fs) ≡ unfinished task j es + unfinished task j fs
unfinished-append task j [] fs = omega arith
unfinished-append task j (e ∷ es) fs = omega (arith, unfinished-append task j es fs)

module _ (toolchain : Text) (spec : ℕ → TaskSpec) (row : ℕ → Draft) (rank : ℕ → ℤ)
    (part : ℕ → ℕ) where
  tasks : ℕ → Task
  tasks i = new_task toolchain (spec i) (row i) (rank i) (part i)

  unfinished-edges_of :
      (id k j : ℕ) (ds : List ℤ)
      → unfinished tasks j (edges_of id k ds)
        ≡ (if id == j then open_deps row (map pos_part ds) else 0)
  unfolding edges_of tasks
  unfinished-edges_of id k j [] = ground arith
  unfinished-edges_of id k j (d ∷ ds) = ground (arith, unfinished-edges_of id (suc k) j ds)

  unfinished-below :
      (id j : ℕ) (specs : List TaskSpec) → j < id → unfinished tasks j (all_edges id specs) ≡ 0
  unfolding all_edges
  unfinished-below id j [] h = refl
  unfinished-below id j (ts ∷ specs) h = ground (
    arith,
    unfinished-append tasks j (edges_of id 0 ts.deps) (all_edges (suc id) specs),
    unfinished-edges_of id 0 j ts.deps,
    unfinished-below (suc id) j specs,
  )

  unfinished-all_edges :
      (id i : ℕ) (specs : List TaskSpec)
      → unfinished tasks (id + i) (all_edges id specs)
        ≡ open_deps row (map pos_part (spec_at specs i).deps)
  unfolding all_edges spec_at
  unfinished-all_edges id i [] = refl
  unfinished-all_edges id zero (ts ∷ specs) = ground (
    arith,
    unfinished-append tasks (id + 0) (edges_of id 0 ts.deps) (all_edges (suc id) specs),
    unfinished-edges_of id 0 (id + 0) ts.deps,
    unfinished-below (suc id) (id + 0) specs,
  )
  unfinished-all_edges id (suc i) (ts ∷ specs) = ground (
    arith,
    unfinished-append tasks (id + suc i) (edges_of id 0 ts.deps) (all_edges (suc id) specs),
    unfinished-edges_of id 0 (id + suc i) ts.deps,
    unfinished-all_edges (suc id) i specs,
  )

  unfinished-rows :
      (i : ℕ) (specs : List TaskSpec)
      → unfinished tasks i (all_edges 0 specs) ≡ open_deps row (map pos_part (spec_at specs i).deps)
  unfinished-rows i specs =
      let from_zero : 0 + i ≡ i = omega arith in
      subst
        (λ j.
          unfinished tasks j (all_edges 0 specs)
          ≡ open_deps row (map pos_part (spec_at specs i).deps))
        from_zero (unfinished-all_edges 0 i specs)

-- What `maybe_finish` leaves of a new build: the counters are those that the loop computed.
module _ (toolchain : Text) (specs : List TaskSpec) (rank : ℕ → ℤ) (part : ℕ → ℕ) (cache : Cache)
    (drafts : Drafts) (last : List ℕ) (l : Loop (spec_at specs) last drafts)
    (all : (i : ℕ) → i < length specs → 0 < count i last) where
  new_build-Settled :
      Settled (new_build toolchain specs rank part cache drafts.row).build nothing_owed
  unfolding tasks
  new_build-Settled = record {
    pending = λ i h. omega (
      arith,
      (l.visited i (all i h)).pending,
      unfinished-rows toolchain (spec_at specs) drafts.row rank part i specs,
    );
    waits = λ i h. (l.visited i (all i h)).waits;
  }

-- The order that `topo_order` finds suits the loop of `submit`.
specs-IsOrdered :
    (specs : List TaskSpec) (order : List ℕ)
    → IsTopological (map graph_task specs) order
    → IsOrdered (λ i. map pos_part (spec_at specs i).deps) [] order
specs-IsOrdered specs order top =
    subst (λ f. IsOrdered f [] order)
      (fun_ext (λ i.
        subst (λ j. deps_from 0 (map graph_task specs) j ≡ map pos_part (spec_at specs i).deps)
          (omega arith) (spec_deps 0 i specs)))
      top.deps_first

first-Loop :
    (cache : Cache) (specs : List TaskSpec)
    → IsFilled cache
    → Loop (spec_at specs) [] (first_drafts cache specs)
first-Loop cache specs filled = record {
  outputs = λ i. refl;
  hits = first_hits-filled cache (compile_keys specs) filled;
  visited = λ i m. absurd (omega arith);
}

pub graph_result-ok :
    (r : Result TopoError (List ℕ)) (order : List ℕ) → graph_result r ≡ ok order → r ≡ ok order
graph_result-ok (ok l) order e = cc
graph_result-ok (err x) order e = cc

-- A build that `submit_build` accepts, from a cache all of whose rows have an output, and whose
-- compilations depend on nothing, starts with the counters right, and is not left in state 'running'
-- when all of it was found in the cache.
pub submit_build-Settled :
    (sha256 : Text → Text) (blob : Text → Bool) (parts : ℕ) (toolchain : Text)
    (specs : List TaskSpec) (cache : Cache) (s : Tx)
    → IsFilled cache
    → ((i : ℕ) → is_compile (spec_at specs i) ≡ true → (spec_at specs i).deps ≡ [])
    → submit_build sha256 blob parts toolchain specs cache ≡ ok s
    → Settled s.build nothing_owed × IsClosed s.build
unfolding submit_build
submit_build-Settled sha256 blob parts toolchain specs cache s filled leaf e =
    let (g, read, found) = >>=-eq-ok (read_specs specs) _ e in
    let (order, ordered, accepted) = >>=-eq-ok (graph_result (topo_order g)) _ found in
    let same_graph = read_specs-graph specs g read in
    let sorted =
      subst (λ t. topo_order t ≡ ok order) same_graph
        (graph_result-ok (topo_order g) order ordered) in
    let top = topo_order-IsTopological (map graph_task specs) order sorted in
    let (drafts, visited, same) =
      submit-rows sha256 blob toolchain specs order (upward_rank g) (partition g parts) cache s
        accepted in
    let (last, counts, l) =
      visit_all-Loop sha256 toolchain (spec_at specs) blob cache filled leaf order []
        (first_drafts cache specs) drafts (specs-IsOrdered specs order top)
        (λ i. ground (arith, top.once i)) (first-Loop cache specs filled) visited in
    let built = new_build toolchain specs (upward_rank g) (partition g parts) cache drafts.row in
    let rows = maybe_finish-rows built in
    let settled =
      Settled-rows built.build (maybe_finish built).build nothing_owed rows.0 rows.1 rows.2 (
        new_build-Settled toolchain specs (upward_rank g) (partition g parts) cache drafts last l
          (λ i h. ground (arith, counts i, top.once i, length-map graph_task specs))) in
    subst (λ z. Settled z.build nothing_owed × IsClosed z.build) (sym same)
      (settled, maybe_finish-IsClosed built)
