-- ===== src/Coordinator/Status.antt =====
-- `get_build`, `check_cache` and `GetBlob` of coordinator.cpp: what a client asks for. Execution times are
-- left out.
pub mod Told
use distcompile.Prelude.{
  ℕ, zero, suc, Bool, true, false, Option, none, some, List, [], ◌∷◌, Text, ltb, if◌then◌else◌,
}
use distcompile.Cas.{Files, get, is_some}
use distcompile.Coordinator.Rows.{
  State, BuildState, Task, Build, Cache, is_finished, is_running, count_tasks, text_of,
}
use distcompile.Coordinator.Claim.{Db}
use distcompile.Coordinator.Submit.{is_cached}

pub record TaskState : Type 0 where
  pub id : ℕ
  pub state : State
  pub output : Text
  pub worker : Text
  pub attempts : ℕ
  pub log : Text

pub record BuildStatus : Type 0 where
  pub build_id : ℕ
  pub state : BuildState
  pub total : ℕ
  pub finished : ℕ
  pub cached : ℕ
  pub running : ℕ
  pub tasks : List TaskState

abbrev pub task_state : ℕ → Task → TaskState
task_state i x = record {
  id = i;
  state = x.state;
  output = text_of x.output;
  worker = text_of x.lease_owner;
  attempts = x.attempts;
  log = text_of x.log;
}

-- The query "build_tasks", from id `i` on.
unfoldable pub task_list : (ℕ → Task) → ℕ → ℕ → List TaskState
task_list task zero i = []
task_list task (suc n) i = task_state i (task i) ∷ task_list task n (suc i)

-- The reply: the state of the build, the counts, and the tasks if they are asked for, each from the rows
-- as they are when its query runs.
unfoldable pub status_of : ℕ → BuildState → Build → Build → Bool → BuildStatus
unfolding count_tasks task_list
status_of id state counted listed full = record {
  build_id = id;
  state = state;
  total = counted.total;
  finished = count_tasks is_finished counted.total counted.task;
  cached = count_tasks is_cached counted.total counted.task;
  running = count_tasks is_running counted.total counted.task;
  tasks = if full then task_list listed.task listed.total 0 else [];
}

-- The three queries, each a statement of its own: the tables that "build_state", "build_counts" and
-- "build_tasks" see. `none` is NOT_FOUND.
unfoldable pub get_build : Db → Db → Db → ℕ → Bool → Option BuildStatus
unfolding status_of
get_build first second third id full =
    if ltb id first.next_build
    then some (status_of id (first.builds id).state (second.builds id) (third.builds id) full)
    else none

-- `SELECT key FROM cache WHERE key = ANY(…)`; the order and the repetition of keys do not matter to
-- the client, which makes a set of them.
unfoldable pub check_cache : Cache → List Text → List Text
check_cache cache [] = []
check_cache cache (k ∷ keys) =
    let rest = check_cache cache keys in if is_some (cache k) then k ∷ rest else rest

-- `none` is NOT_FOUND; the reply names the hash that was asked for.
unfoldable pub get_blob : Text → Files → Text → Option (Text × Text)
unfolding get
get_blob root files hash = elim (get root files hash) [
  | none ↦ none
  | some contents ↦ some (hash, contents)
]
