-- ===== src/Coordinator/Rows.antt =====
-- The rows of sql/schema.sql that the coordinator reads and writes. The tables keep every row, so a
-- table is a function of the key with the number of rows: the task `id` of a build is the row that
-- UNIQUE (build_id, id) names, and the pair stands for its serial `uid`.
use distcompile.Prelude.{
  ℕ, zero, suc, ◌+◌, Bool, true, false, Option, none, some, List, [], Text, if◌then◌else◌, text_eq,
}
use distcompile.Prelude.Int.{ℤ}

-- The texts that the column tasks.state holds.
pub data State : Type 0 where
  waiting ready running done cached failed : State

pub data BuildState : Type 0 where
  active build_done build_failed : BuildState

pub record Task : Type 0 where
  pub kind : ℕ
  pub name : Text
  pub key : Option Text
  pub input : Option Text
  pub args : Text
  pub inputs : Option Text
  pub input_names : Option Text
  pub toolchain : Text
  pub cost : ℤ
  pub priority : ℤ
  pub part : ℕ
  pub state : State
  pub pending_deps : ℕ
  pub attempts : ℕ
  pub lease_owner : Option Text
  pub lease_until : ℕ
  pub output : Option Text
  pub log : Option Text
  pub last_failed_by : Option Text
  pub ready_at : Option ℕ

-- A row of task_deps: `task` waits for `dep`, which is its input number `pos`.
pub record Edge : Type 0 where
  pub task : ℕ
  pub dep : ℕ
  pub pos : ℕ

-- A row of builds with the rows of tasks and task_deps that carry its id.
pub record Build : Type 0 where
  pub toolchain : Text
  pub total : ℕ
  pub state : BuildState
  pub task : ℕ → Task
  pub edges : List Edge

pub record CacheRow : Type 0 where
  pub output : Text
  pub size : ℕ
  pub hits : ℕ

abbrev pub Cache : Type 0
Cache = Text → Option CacheRow

-- A row written by its key.
abbrev pub put_key {ℓ} : {A : Type ℓ} → (Text → A) → Text → A → Text → A
put_key f k x j = if text_eq j k then x else f j

-- `state IN ('done', 'cached')`
abbrev pub is_finished : State → Bool
is_finished done = true
is_finished cached = true
is_finished waiting = false
is_finished ready = false
is_finished running = false
is_finished failed = false

-- `state IN ('ready', 'running')`
abbrev pub is_open : State → Bool
is_open ready = true
is_open running = true
is_open waiting = false
is_open done = false
is_open cached = false
is_open failed = false

abbrev pub is_failed : State → Bool
is_failed failed = true
is_failed waiting = false
is_failed ready = false
is_failed running = false
is_failed done = false
is_failed cached = false

abbrev pub is_running : State → Bool
is_running running = true
is_running waiting = false
is_running ready = false
is_running done = false
is_running cached = false
is_running failed = false

abbrev pub is_ready : State → Bool
is_ready ready = true
is_ready waiting = false
is_ready running = false
is_ready done = false
is_ready cached = false
is_ready failed = false

abbrev pub is_waiting : State → Bool
is_waiting waiting = true
is_waiting ready = false
is_waiting running = false
is_waiting done = false
is_waiting cached = false
is_waiting failed = false

-- A NULL read as text is the empty text.
abbrev pub text_of : Option Text → Text
text_of none = []
text_of (some s) = s

-- `count(*) FILTER (WHERE …)` over the tasks of a build.
unfoldable pub count_tasks : (State → Bool) → ℕ → (ℕ → Task) → ℕ
count_tasks p zero task = 0
count_tasks p (suc n) task = (if p (task n).state then 1 else 0) + count_tasks p n task
