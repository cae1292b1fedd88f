-- ===== src/Coordinator/Submit.antt =====
-- `submit_build` and `submit` of coordinator.cpp: a build becomes rows, as far done as the cache
-- allows. `blob` says which digests the blob store has; the tables are those of one transaction.
pub mod Inputs
pub mod Counters
pub mod Start
pub mod Order
use distcompile.Prelude.{
  is_among, update, ℕ, zero, suc, ◌+◌, Bool, true, false, ◌&&◌, ◌||◌, not, Option, none, some, List,
  [], ◌∷◌, ◌++◌, Text, codes, ◌==◌, if◌then◌else◌, length, text_eq, is_empty, Result, ok, err,
  ◌>>=◌,
}
use distcompile.Prelude.Int.{ℤ, pos, pos_part}
use distcompile.Cas.{valid_hash}
use distcompile.Graph.{GraphTask, TopoError, topo_order}
use distcompile.Graph.Rank.{upward_rank}
use distcompile.Graph.Partition.{partition}
use distcompile.Coordinator.Lines.{join_lines, flat_name, action_key}
use distcompile.Coordinator.Rows.{State, waiting, ready, cached, active, Task, Edge, Cache}
use distcompile.Coordinator.Finish.{Tx, maybe_finish}

-- A task of the message BuildSpec.
pub record TaskSpec : Type 0 where
  pub id : ℤ
  pub kind : ℕ
  pub name : Text
  pub args : List Text
  pub deps : List ℤ
  pub key : Text
  pub input : Text
  pub cost : ℤ

pub data SubmitError : Type 0 where
  needs_key_and_input : Text → SubmitError
  bad_graph : TopoError → SubmitError
  not_uploaded : Text → SubmitError
  db_error : SubmitError

-- What the vectors `state`, `output`, `key`, `inputs`, `names` and `pending` hold of a task.
pub record Draft : Type 0 where
  pub state : State
  pub output : Text
  pub key : Text
  pub inputs : Text
  pub names : Text
  pub pending : ℕ

-- Before the loop over `order`, which visits every task; the empty state stands as `waiting`.
abbrev pub no_draft : Draft
no_draft = record { state = waiting; output = []; key = []; inputs = []; names = []; pending = 0 }

pub record Drafts : Type 0 where
  pub row : ℕ → Draft
  pub hits : Text → Option Text
  pub hit_count : ℕ

-- The loop over `ts.deps()`: how many outputs are not known, and the known ones with their names.
pub record Known : Type 0 where
  pub pending : ℕ
  pub digests : List Text
  pub names : List Text

unfoldable pub known_deps : (ℕ → TaskSpec) → (ℕ → Draft) → List ℤ → Known
known_deps spec row [] = record { pending = 0; digests = []; names = [] }
known_deps spec row (d ∷ ds) =
    let rest = known_deps spec row ds in
    let output = (row (pos_part d)).output in
    if is_empty output then record rest { pending = suc rest.pending } else record rest {
      digests = output ∷ rest.digests;
      names = flat_name (spec (pos_part d)).name ∷ rest.names;
    }

abbrev pub is_compile : TaskSpec → Bool
is_compile ts = ts.kind == 0

-- `SELECT output FROM cache WHERE key = …`
abbrev pub cached_output : Cache → Text → Option Text
cached_output cache key = elim (cache key) [ none ↦ none | some r ↦ some r.output ]

unfoldable pub compile_keys : List TaskSpec → List Text
compile_keys [] = []
compile_keys (ts ∷ specs) =
    let rest = compile_keys specs in if is_compile ts then ts.key ∷ rest else rest

-- The query "cache_lookup".
abbrev pub first_hits : Cache → List Text → Text → Option Text
first_hits cache keys k = if is_among k keys then cached_output cache k else none

-- The query "cache_get" of the key of an archive or link task.
unfoldable pub more_hits : Cache → TaskSpec → Draft → (Text → Option Text) → Text → Option Text
more_hits cache ts d hits k =
    let asked = not (is_compile ts) && not (is_empty d.key) && text_eq k d.key in
    elim (hits k) [ some o ↦ some o | none ↦ if asked then cached_output cache k else none ]

-- What a task becomes, from its hit.
unfoldable pub settle : (Text → Bool) → TaskSpec → Draft → Option Text → Result SubmitError Draft
settle blob ts d hit =
    let miss : Result SubmitError Draft =
      if d.pending == 0
      then (if is_compile ts && not (blob ts.input)
          then err (not_uploaded ts.name)
          else ok record d { state = ready })
      else ok record d { state = waiting } in
    elim (is_empty d.key) [
      | true ↦ miss
      | false ↦ elim hit [ none ↦ miss | some o ↦ ok record d { state = cached; output = o } ]
    ]

abbrev pub is_cached : State → Bool
is_cached waiting = false
is_cached ready = false
is_cached cached = true
is_cached State.running = false
is_cached State.done = false
is_cached State.failed = false

-- The loop over `state[i] == "cached"`.
unfoldable pub hit_keys : (ℕ → Draft) → ℕ → List Text
hit_keys row zero = []
hit_keys row (suc n) =
    let rest = hit_keys row n in if is_cached (row n).state then (row n).key ∷ rest else rest

module _ (sha256 : Text → Text) (toolchain : Text) (spec : ℕ → TaskSpec) where
  -- The key, the inputs and the file names of a task, as far as they are known.
  unfoldable pub key_draft : TaskSpec → Known → Draft
  key_draft ts k =
      if is_compile ts
      then record no_draft {
        key = ts.key;
        inputs = ts.input;
        names = codes "in.i";
        pending = k.pending;
      }
      else if k.pending == 0
      then record no_draft {
        key = action_key sha256 ts.kind toolchain (join_lines ts.args) k.names k.digests;
        inputs = join_lines k.digests;
        names = join_lines k.names;
      }
      else record no_draft { pending = k.pending }

  -- The body of the loop over `order`.
  unfoldable pub visit : (Text → Bool) → Cache → ℕ → Drafts → Result SubmitError Drafts
  unfolding known_deps key_draft more_hits settle
  visit blob cache id s =
      let ts = spec id in
      let d = key_draft ts (known_deps spec s.row ts.deps) in
      let hits = more_hits cache ts d s.hits in
      (settle blob ts d (hits d.key) >>= λ r. ok record {
        row = update s.row id r;
        hits = hits;
        hit_count = if is_cached r.state then suc s.hit_count else s.hit_count;
      })

  unfoldable pub visit_all : (Text → Bool) → Cache → List ℕ → Drafts → Result SubmitError Drafts
  unfolding visit
  visit_all blob cache [] s = ok s
  visit_all blob cache (id ∷ order) s = (visit blob cache id s >>= visit_all blob cache order)

-- The UPDATE "cache_hits": each row once, however often its key was hit.
abbrev pub count_hits : List Text → Cache → Cache
count_hits keys cache k = elim (cache k) [
  | none ↦ none
  | some r ↦ if is_among k keys then some (record r { hits = r.hits + 1 }) else some r
]

-- `empty_is_null` of `pg_array`
abbrev pub null_if_empty : Text → Option Text
null_if_empty [] = none
null_if_empty (c ∷ s) = some (c ∷ s)

-- A row of the INSERT "insert_tasks"; the other columns have their defaults.
abbrev pub new_task : Text → TaskSpec → Draft → ℤ → ℕ → Task
new_task toolchain ts d rank part = record {
  kind = ts.kind;
  name = ts.name;
  key = null_if_empty d.key;
  input = null_if_empty ts.input;
  args = join_lines ts.args;
  inputs = null_if_empty d.inputs;
  input_names = null_if_empty d.names;
  toolchain = toolchain;
  cost = ts.cost;
  priority = rank;
  part = part;
  state = d.state;
  pending_deps = d.pending;
  attempts = 0;
  lease_owner = none;
  lease_until = 0;
  output = null_if_empty d.output;
  log = none;
  last_failed_by = none;
  ready_at = none;
}

-- The rows of the INSERT "insert_deps".
unfoldable pub edges_of : ℕ → ℕ → List ℤ → List Edge
edges_of id k [] = []
edges_of id k (d ∷ ds) = record { task = id; dep = pos_part d; pos = k } ∷ edges_of id (suc k) ds

unfoldable pub all_edges : ℕ → List TaskSpec → List Edge
unfolding edges_of
all_edges id [] = []
all_edges id (ts ∷ specs) = edges_of id 0 ts.deps ++ all_edges (suc id) specs

-- PRIMARY KEY (build_id, dep, task)
unfoldable pub has_edge : ℕ → ℕ → List Edge → Bool
has_edge t d [] = false
has_edge t d (e ∷ es) = (e.task == t && (e.dep == d)) || has_edge t d es

unfoldable pub has_twin : List Edge → Bool
unfolding has_edge
has_twin [] = false
has_twin (e ∷ es) = has_edge e.task e.dep es || has_twin es

-- `spec.tasks(id)`
abbrev pub no_spec : TaskSpec
no_spec = record {
  id = pos 0;
  kind = 0;
  name = [];
  args = [];
  deps = [];
  key = [];
  input = [];
  cost = pos 0;
}

unfoldable pub spec_at : List TaskSpec → ℕ → TaskSpec
spec_at [] i = no_spec
spec_at (ts ∷ specs) zero = ts
spec_at (ts ∷ specs) (suc i) = spec_at specs i

-- The rows that are inserted, and the cache behind the UPDATE "cache_hits".
abbrev pub new_build : Text → List TaskSpec → (ℕ → ℤ) → (ℕ → ℕ) → Cache → (ℕ → Draft) → Tx
new_build toolchain specs rank part cache row = record {
  build = record {
    toolchain = toolchain;
    total = length specs;
    state = active;
    task = λ i. new_task toolchain (spec_at specs i) (row i) (rank i) (part i);
    edges = all_edges 0 specs;
  };
  cache = count_hits (hit_keys row (length specs)) cache;
}

abbrev pub first_drafts : Cache → List TaskSpec → Drafts
first_drafts cache specs = record {
  row = λ i. no_draft;
  hits = first_hits cache (compile_keys specs);
  hit_count = 0;
}

unfoldable pub submit :
    (Text → Text)
    → (Text → Bool)
    → Text
    → List TaskSpec
    → List ℕ
    → (ℕ → ℤ)
    → (ℕ → ℕ)
    → Cache
    → Result SubmitError Tx
unfolding visit_all compile_keys hit_keys all_edges has_twin spec_at maybe_finish
submit sha256 blob toolchain specs order rank part cache =
    (visit_all sha256 toolchain (spec_at specs) blob cache order (first_drafts cache specs) >>= λ s.
    if has_twin (all_edges 0 specs)
    then err db_error
    else ok (maybe_finish (new_build toolchain specs rank part cache s.row)))

abbrev pub graph_task : TaskSpec → GraphTask
graph_task ts = record { id = ts.id; kind = ts.kind; cost = ts.cost; deps = ts.deps }

-- The first loop of `submit_build`.
unfoldable pub read_specs : List TaskSpec → Result SubmitError (List GraphTask)
unfolding valid_hash
read_specs [] = ok []
read_specs (ts ∷ specs) =
    let rest = read_specs specs in
    if is_compile ts && (not (valid_hash ts.key) || not (valid_hash ts.input))
    then err (needs_key_and_input ts.name)
    else (rest >>= λ gs. ok (graph_task ts ∷ gs))

abbrev pub graph_result : Result TopoError (List ℕ) → Result SubmitError (List ℕ)
graph_result (ok order) = ok order
graph_result (err e) = err (bad_graph e)

-- `submit_build`; `parts` is the number of partitions that the request or the workers give.
unfoldable pub submit_build :
    (Text → Text) → (Text → Bool) → ℕ → Text → List TaskSpec → Cache → Result SubmitError Tx
unfolding read_specs submit topo_order upward_rank partition
submit_build sha256 blob parts toolchain specs cache =
    (read_specs specs >>= λ g.
    (graph_result (topo_order g) >>= λ order.
    submit sha256 blob toolchain specs order (upward_rank g) (partition g parts) cache))
