-- ===== src/Coordinator/Finish.antt =====
-- `finished`, `make_ready` and `maybe_finish` of coordinator.cpp, inside one transaction: the rows of
-- the build and the cache.
pub mod Counting
pub mod Settled
pub mod Steps
pub mod Run
pub mod Filled
use distcompile.Prelude.{
  update, ℕ, zero, suc, ◌+◌, ◌-◌, Bool, true, false, ◌&&◌, not, Option, none, some, List, [], ◌∷◌,
  ◌++◌, map, Text, ltb, leb, ◌==◌, if◌then◌else◌, is_empty,
}
use distcompile.Coordinator.Lines.{join_lines, flat_name, action_key}
use distcompile.Coordinator.Rows.{
  Task, Edge, Build, CacheRow, Cache, waiting, ready, running, done, cached, failed, active,
  build_done, build_failed, is_finished, is_failed, put_key, text_of, count_tasks, BuildState,
}

pub record Tx : Type 0 where
  pub build : Build
  pub cache : Cache

infixl 5 ◌>>=◌
abbrev pub ◌>>=◌ {ℓ κ} : {A : Type ℓ} {B : Type κ} → Option A → (A → Option B) → Option B
none >>= f = none
some a >>= f = f a

abbrev pub set_task : Tx → ℕ → Task → Tx
set_task s i t = record s { build = record (s.build) { task = update s.build.task i t } }

-- `UPDATE builds SET state = $2 … WHERE id = $1 AND state = 'running'`
abbrev pub close_build : BuildState → Tx → Tx
close_build to s = elim s.build.state [
  | active ↦ record s { build = record (s.build) { state = to } }
  | build_done ↦ s
  | build_failed ↦ s
]

unfoldable pub maybe_finish : Tx → Tx
unfolding count_tasks
maybe_finish s =
    let left = count_tasks (λ x. not (is_finished x)) s.build.total s.build.task in
    let bad = count_tasks is_failed s.build.total s.build.task in
    if ltb 0 bad
    then close_build build_failed s
    else if left == 0
    then close_build build_done s
    else s

-- `pending_deps = pending_deps - 1`
unfoldable pub counted : Task → Task
counted me = record me { pending_deps = me.pending_deps - 1 }

-- The loop of `finished` over the dependents. `RETURNING pending_deps` is 0 when it was 1.
unfoldable pub count_down : (ℕ → Tx → Option Tx) → List ℕ → Tx → Option Tx
count_down prepare [] s = some s
count_down prepare (t ∷ ts) s =
    let s' = set_task s t (counted (s.build.task t)) in
    elim ((s.build.task t).pending_deps == 1) [
      | true ↦ (prepare t s' >>= count_down prepare ts)
      | false ↦ count_down prepare ts s'
    ]

-- How many rows of task_deps say that `t` waits for `d`.
unfoldable pub count_edges : ℕ → ℕ → List Edge → ℕ
count_edges t d [] = 0
count_edges t d (e ∷ es) = (if e.task == t && (e.dep == d) then 1 else 0) + count_edges t d es

abbrev pub repeat : ℕ → ℕ → List ℕ
repeat zero t = []
repeat (suc n) t = t ∷ repeat n t

-- The query "dependents", from task `i` on: the join gives a row of tasks once for each row of
-- task_deps that it fits, ordered by id.
unfoldable pub dependents_from : List Edge → ℕ → ℕ → ℕ → List ℕ
unfolding count_edges
dependents_from es d zero i = []
dependents_from es d (suc k) i = repeat (count_edges i d es) i ++ dependents_from es d k (suc i)

unfoldable pub dependents : Build → ℕ → List ℕ
unfolding dependents_from
dependents b d = dependents_from b.edges d b.total 0

-- `ORDER BY d.pos`
unfoldable pub insert_pos : Edge → List Edge → List Edge
insert_pos e [] = e ∷ []
insert_pos e (f ∷ es) =
    let rest = f ∷ insert_pos e es in if leb e.pos f.pos then e ∷ f ∷ es else rest

-- The query "dep_outputs": the rows of task_deps of task `t`, by position.
unfoldable pub own_edges : ℕ → List Edge → List Edge
unfolding insert_pos
own_edges t [] = []
own_edges t (e ∷ es) = let rest = own_edges t es in if e.task == t then insert_pos e rest else rest

unfoldable pub deps_of : ℕ → List Edge → List ℕ
unfolding own_edges
deps_of t es = map (λ e. e.dep) (own_edges t es)

-- The outputs and file names of the dependencies of task `t`.
unfoldable pub dep_digests : Build → ℕ → List Text
unfolding deps_of
dep_digests b t = map (λ d. text_of (b.task d).output) (deps_of t b.edges)

unfoldable pub dep_names : Build → ℕ → List Text
unfolding deps_of
dep_names b t = map (λ d. flat_name (b.task d).name) (deps_of t b.edges)

-- The UPDATEs "mark_ready" and "mark_cached" on a row.
unfoldable pub ready_row : Text → List Text → List Text → Task → Task
ready_row key digests names me = record me {
  state = ready;
  key = some key;
  inputs = some (join_lines digests);
  input_names = some (join_lines names);
}

unfoldable pub cached_row : Text → CacheRow → Task → Task
cached_row key hit me = record me { state = cached; key = some key; output = some hit.output }

-- A hit: the cache row counts it, and the task takes its output.
abbrev pub use_hit : ℕ → Text → CacheRow → Tx → Tx
use_hit t key hit s = record (set_task s t (cached_row key hit (s.build.task t))) {
  cache = put_key s.cache key (some (record hit { hits = hit.hits + 1 }));
}

module _ (sha256 : Text → Text) where
  -- The key of task `t` from the outputs of its dependencies.
  unfoldable pub task_key : Build → ℕ → Text
  unfolding dep_digests dep_names
  task_key b t =
      let me = b.task t in
      action_key sha256 me.kind me.toolchain me.args (dep_names b t) (dep_digests b t)

  unfoldable pub make_ready : (ℕ → Tx → Option Tx) → ℕ → Tx → Option Tx
  unfolding cached_row ready_row
  make_ready finish t s =
      let key = task_key s.build t in
      elim (s.cache key) [
        | some hit ↦ finish t (use_hit t key hit s)
        | none ↦ some (
            set_task s t
              (ready_row key (dep_digests s.build t) (dep_names s.build t) (s.build.task t)))
      ]

  -- On fuel: a task that is found in the cache is finished in its turn.
  unfoldable pub finished : ℕ → ℕ → Tx → Option Tx
  unfolding make_ready count_down counted dependents maybe_finish
  finished zero id s = none
  finished (suc fuel) id s =
      let ts = dependents s.build id in
      elim (is_empty ts) [
        | true ↦ some (maybe_finish s)
        | false ↦ count_down (make_ready (finished fuel)) ts s
      ]
