-- ===== src/Coordinator/Complete.antt =====
-- `CompleteTask` of coordinator.cpp. What the blob store answers, `has` and `size_of`, and the
-- clock are arguments; execution times, statistics and the wake-up of idle workers are left out.
pub mod Twice
pub mod Invariant
pub mod Delivery
pub mod Filled
use distcompile.Prelude.{
  update, ℕ, zero, suc, ◌+◌, ◌-◌, Bool, true, false, ◌&&◌, not, Option, none, some, List, [], ◌∷◌,
  Text, codes, ltb, leb, ◌==◌, if◌then◌else◌,
}
use distcompile.Coordinator.Rows.{
  Task, Build, CacheRow, Cache, ready, running, done, failed, is_open, is_running, is_failed,
  put_key, text_of,
}
use distcompile.Coordinator.Finish.{Tx, set_task, maybe_finish, finished}

pub record TaskResult : Type 0 where
  pub task : ℕ
  pub attempt : ℕ
  pub worker : Text
  pub ok : Bool
  pub retryable : Bool
  pub output : Text
  pub log : Text

-- What the handler is given from outside the tables.
pub record Site : Type 0 where
  pub sha256 : Text → Text
  pub has : Text → Bool
  pub size_of : Text → ℕ
  pub max_attempts : ℕ
  pub now : ℕ

unfoldable pub retry_copy : TaskResult → Text → TaskResult
retry_copy r why = record r { ok = false; retryable = true; log = why }

-- `INSERT INTO cache … ON CONFLICT (key) DO NOTHING`
unfoldable pub cache_put : Text → Text → ℕ → Cache → Cache
cache_put key output size cache = elim (cache key) [
  | some row ↦ cache
  | none ↦ put_key cache key (some (record { output = output; size = size; hits = 0 }))
]

-- The rows that the three UPDATEs write.
unfoldable pub done_row : TaskResult → Task → Task
done_row r me = record me { state = done; output = some r.output; lease_owner = some r.worker }

unfoldable pub retry_row : ℕ → ℕ → Text → Task → Task
retry_row max_attempts now log me = record me {
  state = if leb max_attempts me.attempts then failed else ready;
  lease_owner = none;
  last_failed_by = me.lease_owner;
  ready_at = some now;
  log = some log;
}

unfoldable pub failed_row : TaskResult → Task → Task
failed_row r me = record me { state = failed; log = some r.log }

-- `true` is `accepted`. A uid that no row has changes nothing.
module _ (site : Site) (r : TaskResult) (s : Tx) where
  -- The row that is to be completed.
  abbrev pub target : Task
  target = s.build.task r.task

  abbrev pub accept : Option Tx → Option (Tx × Bool)
  accept none = none
  accept (some s') = some (s', true)

  unfoldable pub complete_done : Option (Tx × Bool)
  unfolding done_row cache_put
  complete_done =
      let s' : Tx = record (set_task s r.task (done_row r target)) {
        cache = cache_put (text_of target.key) r.output (site.size_of r.output) s.cache;
      } in
      elim (ltb r.task s.build.total && is_open target.state) [
        | true ↦ accept (finished site.sha256 (suc s.build.total) r.task s')
        | false ↦ some (s, false)
      ]

  unfoldable pub complete_retry : Option (Tx × Bool)
  unfolding retry_row
  complete_retry =
      let row = retry_row site.max_attempts site.now r.log target in
      let s' = set_task s r.task row in
      elim (ltb r.task s.build.total
        && (is_running target.state && (target.attempts == r.attempt))) [
          | true ↦ some (if is_failed row.state then maybe_finish s' else s', true)
          | false ↦ some (s, false)
        ]

  unfoldable pub complete_failed : Option (Tx × Bool)
  unfolding failed_row
  complete_failed = elim (ltb r.task s.build.total && is_open target.state) [
    | true ↦ some (maybe_finish (set_task s r.task (failed_row r target)), true)
    | false ↦ some (s, false)
  ]

  -- The transaction.
  unfoldable pub complete_tx : Option (Tx × Bool)
  unfolding complete_done complete_retry complete_failed
  complete_tx =
      if r.ok then complete_done else if r.retryable then complete_retry else complete_failed

-- A success whose output never arrived is taken as a transient failure.
unfoldable pub complete_task : Site → TaskResult → Tx → Option (Tx × Bool)
unfolding complete_tx retry_copy
complete_task site r s =
    if r.ok && not (site.has r.output)
    then complete_tx site (retry_copy r (codes "output blob missing")) s
    else complete_tx site r s
