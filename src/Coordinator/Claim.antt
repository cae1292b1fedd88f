-- ===== src/Coordinator/Claim.antt =====
-- `try_claim`, `heartbeat` and one round of `reap_loop` of coordinator.cpp. Times are milliseconds;
-- the clock is an argument.
pub mod Best
pub mod Lease
use distcompile.Prelude.{
  update, ℕ, zero, suc, ◌+◌, ◌*◌, Bool, true, false, ◌&&◌, ◌||◌, not, Option, none, some, List, [],
  ◌∷◌, ◌++◌, Text, codes, ltb, leb, ◌==◌, if◌then◌else◌, text_eq,
}
use distcompile.Prelude.Int.{ℤ, pos, negsuc, ltb_ℤ}
use distcompile.Coordinator.Lines.{to_string, split_lines}
use distcompile.Coordinator.Rows.{
  Task, Build, Cache, running, ready, failed, is_ready, is_running, is_failed, count_tasks, text_of,
}
use distcompile.Coordinator.Finish.{Tx, maybe_finish}

-- The tables builds (with tasks and task_deps) and cache.
pub record Db : Type 0 where
  pub builds : ℕ → Build
  pub next_build : ℕ
  pub cache : Cache

-- A row of tasks: its build and its id there.
pub record Uid : Type 0 where
  pub build : ℕ
  pub id : ℕ

abbrev pub row_at : Db → Uid → Task
row_at db u = (db.builds u.build).task u.id

abbrev pub set_row : Db → Uid → Task → Db
set_row db u x = record db {
  builds =
      update db.builds u.build
        (record (db.builds u.build) { task = update (db.builds u.build).task u.id x });
}

-- Every row, in the order of insertion.
unfoldable pub uids_of : ℕ → ℕ → ℕ → List Uid
uids_of b zero i = []
uids_of b (suc k) i = record { build = b; id = i } ∷ uids_of b k (suc i)

unfoldable pub all_uids : (ℕ → Build) → ℕ → ℕ → List Uid
unfolding uids_of
all_uids builds zero b = []
all_uids builds (suc k) b = uids_of b (builds b).total 0 ++ all_uids builds k (suc b)

pub record ClaimRequest : Type 0 where
  pub worker : Text
  pub toolchain : Text
  pub part : ℤ

-- `x IS DISTINCT FROM $1`
abbrev pub is_distinct : Option Text → Text → Bool
is_distinct none w = true
is_distinct (some v) w = not (text_eq v w)

-- `ready_at < now() - interval '3 seconds'`; NULL does not pass.
abbrev pub is_rested : Option ℕ → ℕ → Bool
is_rested none now = false
is_rested (some t) now = ltb (t + 3000) now

-- The WHERE clause of kClaim without its test of the partition.
unfoldable pub is_eligible : ClaimRequest → ℕ → Task → Bool
is_eligible q now x =
    is_ready x.state
    && (text_eq x.toolchain q.toolchain
        && (is_distinct x.last_failed_by q.worker || is_rested x.ready_at now))

-- `ORDER BY priority DESC LIMIT 1`; of equal rows, which the query does not order, the first.
unfoldable pub pick : (Uid → Task) → (Uid → Bool) → List Uid → Option Uid
pick row test [] = none
pick row test (u ∷ us) = elim (pick row test us) [
  | none ↦ if test u then some u else none
  | some v ↦ if test u && not (ltb_ℤ (row u).priority (row v).priority) then some u else some v
]

-- `SET state = 'running', lease_owner = $1, attempts = attempts + 1, lease_until = …`
unfoldable pub running_row : Text → ℕ → Task → Task
running_row worker until x = record x {
  state = running;
  lease_owner = some worker;
  attempts = x.attempts + 1;
  lease_until = until;
}

-- `part = $3`; no task has part -1, which stands for a worker that is not known.
abbrev pub is_part : ℤ → ℕ → Bool
is_part (pos p) n = n == p
is_part (negsuc p) n = false

-- The two queries: the own partition, then anywhere. `locked` are the rows that other claims hold,
-- which SKIP LOCKED passes over.
module _ (q : ClaimRequest) (lease_s now : ℕ) (locked : Uid → Bool) (db : Db) where
  abbrev pub may_claim : Uid → Bool
  may_claim u = is_eligible q now (row_at db u) && not (locked u)

  abbrev pub may_claim_own : Uid → Bool
  may_claim_own u = is_part q.part (row_at db u).part && may_claim u

  unfoldable pub choose : Option Uid
  unfolding all_uids pick is_eligible
  choose =
      let us = all_uids db.builds db.next_build 0 in
      elim (pick (row_at db) may_claim_own us) [
        | some u ↦ some u
        | none ↦ pick (row_at db) may_claim us
      ]

  unfoldable pub try_claim : Option (Uid × Db)
  unfolding choose running_row
  try_claim = elim choose [
    | none ↦ none
    | some u ↦ some (u, set_row db u (running_row q.worker (now + lease_s * 1000) (row_at db u)))
  ]

-- What the reply to a claim says of the row that it wrote.
pub record Assignment : Type 0 where
  pub task_uid : Uid
  pub attempt : ℕ
  pub kind : ℕ
  pub name : Text
  pub inputs : List Text
  pub input_names : List Text
  pub args : List Text

-- `coalesce(a, b)`
abbrev pub coalesce : Option Text → Option Text → Option Text
coalesce none b = b
coalesce (some s) b = some s

unfoldable pub assignment : Uid → Task → Assignment
assignment u x = record {
  task_uid = u;
  attempt = x.attempts;
  kind = x.kind;
  name = x.name;
  inputs = split_lines (text_of (coalesce x.inputs x.input));
  input_names = split_lines (text_of (coalesce x.input_names (some (codes "in.i"))));
  args = split_lines x.args;
}

-- `UPDATE tasks SET lease_until = … WHERE lease_owner = $1 AND state = 'running'`
abbrev pub owned_by : Option Text → Text → Bool
owned_by none w = false
owned_by (some v) w = text_eq v w

unfoldable pub heartbeat_row : Text → ℕ → Task → Task
heartbeat_row worker until x =
    if owned_by x.lease_owner worker && is_running x.state
    then record x { lease_until = until }
    else x

unfoldable pub heartbeat : Text → ℕ → ℕ → Db → Db
unfolding heartbeat_row
heartbeat worker lease_s now db = record db {
  builds = λ b. record (db.builds b) {
    task = λ i. heartbeat_row worker (now + lease_s * 1000) ((db.builds b).task i);
  };
}

-- `state = 'running' AND lease_until < now()`
abbrev pub is_expired : ℕ → Task → Bool
is_expired now x = is_running x.state && ltb x.lease_until now

-- `'gave up: lease expired ' || attempts || ' times'`
abbrev pub gave_up : ℕ → Text
gave_up attempts = codes "gave up: lease expired " ++ to_string attempts ++ codes " times"

unfoldable pub reap_row : ℕ → ℕ → Task → Task
reap_row max_attempts now x =
    if is_expired now x
    then record x {
      state = if leb max_attempts x.attempts then failed else ready;
      lease_owner = none;
      last_failed_by = x.lease_owner;
      ready_at = some now;
      log = if leb max_attempts x.attempts then some (gave_up x.attempts) else x.log;
    }
    else x

-- The tasks that a round of the reaper gives up.
unfoldable pub given_up : ℕ → ℕ → ℕ → (ℕ → Task) → ℕ
given_up max_attempts now zero task = 0
given_up max_attempts now (suc n) task =
    (if is_expired now (task n) && leb max_attempts (task n).attempts then 1 else 0)
    + given_up max_attempts now n task

-- The UPDATE "reap" on the rows of a build, a statement of its own.
unfoldable pub reap_rows : ℕ → ℕ → Tx → Tx
unfolding reap_row
reap_rows max_attempts now s = record s {
  build = record (s.build) { task = λ i. reap_row max_attempts now (s.build.task i) };
}

-- One round on a build, when nothing else writes its rows meanwhile: the UPDATE, then `maybe_finish` if a
-- task failed, in statements of their own. `reached` is whether the round gets that far, or an error ends
-- it before, which is caught. (`maybe_finish` is called for each such task; the rows do not change
-- between the calls, so the later ones find nothing to do.)
unfoldable pub reap_build : ℕ → ℕ → Bool → Tx → Tx
reap_build max_attempts now reached s =
    let s' = reap_rows max_attempts now s in
    if reached && ltb 0 (given_up max_attempts now s.build.total s.build.task)
    then maybe_finish s'
    else s'
