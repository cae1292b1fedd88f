-- ===== src/Examples/Tables.antt =====
-- coordinator.cpp on a build of two compilations and a program that links both.
use distcompile.Prelude.{
  ℕ, zero, suc, ◌≡◌, refl, ◌≢◌, ◌<◌, ◌+◌, ◌*◌, Bool, true, false, ltb, none, some, [], ◌∷◌, codes,
  arith, ◌==◌, if◌then◌else◌, text_eq,
}
use distcompile.Prelude.Int.{pos}
use distcompile.Coordinator.Rows.{
  Task, Edge, waiting, ready, running, done, active, count_tasks, is_waiting, State,
}
use distcompile.Coordinator.Finish.{Tx, set_task, maybe_finish, finished, count_edges}
use distcompile.Coordinator.Finish.Counting.{unfinished}
use distcompile.Coordinator.Finish.Settled.{Settled, Settles}
use distcompile.Coordinator.Finish.Run.{finished-Settles}
use distcompile.Coordinator.Complete.{
  TaskResult, Site, complete_task, complete_tx, complete_failed, failed_row,
}
use distcompile.Coordinator.Complete.Invariant.{
  Completed, nothing_owed, takes, effective, complete_task-Completed,
}
use distcompile.Coordinator.Complete.Twice.{complete_task_twice}
use distcompile.Coordinator.Claim.{
  Db, Uid, row_at, set_row, ClaimRequest, may_claim, try_claim, running_row, choose, all_uids,
  uids_of, pick, is_eligible, heartbeat, reap_row, reap_build,
}
use distcompile.Coordinator.Claim.Best.{Claimed, try_claim-Claimed, try_claim-none, try_claim-ne}
use distcompile.Coordinator.Claim.Lease.{heartbeat_keeps, RoundOf, reap_build-RoundOf}

abbrev row : State → ℕ → ℕ → Task
row state kind pending = record {
  kind = kind;
  name = codes "obj/a.o";
  key = none;
  input = none;
  args = codes "-c";
  inputs = none;
  input_names = none;
  toolchain = codes "gcc";
  cost = pos 4;
  priority = pos 9;
  part = 0;
  state = state;
  pending_deps = pending;
  attempts = 1;
  lease_owner = some (codes "w1");
  lease_until = 5000;
  output = none;
  log = none;
  last_failed_by = none;
  ready_at = none;
}

abbrev edge : ℕ → ℕ → Edge
edge dep k = record { task = 2; dep = dep; pos = k }

abbrev pub built : State → Tx
built state = record {
  build = record {
    toolchain = codes "gcc";
    total = 3;
    state = active;
    task = λ i. if i == 2 then row waiting 2 2 else row state 0 0;
    edges = edge 0 0 ∷ edge 1 1 ∷ [];
  };
  cache = λ k. none;
}

built-pending :
    (j : ℕ)
    → j < 3
    → ((built running).build.task j).pending_deps
      ≡ unfinished (built running).build.task j (built running).build.edges + 0
built-pending zero below = refl
built-pending (suc zero) below = refl
built-pending (suc (suc zero)) below = refl
built-pending (suc (suc (suc j))) below = absurd (omega arith)

built-waits :
    (j : ℕ)
    → j < 3
    → is_waiting ((built running).build.task j).state
      ≡ ltb 0 ((built running).build.task j).pending_deps
built-waits zero below = refl
built-waits (suc zero) below = refl
built-waits (suc (suc zero)) below = refl
built-waits (suc (suc (suc j))) below = absurd (omega arith)

pub built-Settled : Settled (built running).build nothing_owed
built-Settled = record {
  pending = λ j below. built-pending j below;
  waits = λ j below. built-waits j below;
}

abbrev pub site : Site
site = record { sha256 = λ s. s; has = λ h. true; size_of = λ h. 8; max_attempts = 3; now = 7000 }

abbrev pub done_result : TaskResult
done_result = record {
  task = 0;
  attempt = 1;
  worker = codes "w1";
  ok = true;
  retryable = false;
  output = codes "aa";
  log = [];
}

abbrev failed_result : TaskResult
failed_result = record {
  task = 1;
  attempt = 1;
  worker = codes "w1";
  ok = false;
  retryable = false;
  output = [];
  log = codes "error";
}

complete_task-Completed_example :
    Completed 3
      (λ x. takes (effective site done_result) x ≡ false)
      (built running)
      0
      (complete_task site done_result (built running))
complete_task-Completed_example =
    complete_task-Completed site done_result (built running) built-Settled

abbrev after_failure : Tx
after_failure =
    maybe_finish
      (set_task (built running) 1 (failed_row failed_result ((built running).build.task 1)))

failure_taken : complete_task site failed_result (built running) ≡ some (after_failure, true)
unfolding complete_task complete_tx complete_failed
failure_taken = refl

complete_task_twice_example :
    complete_task site failed_result after_failure ≡ some (after_failure, false)
complete_task_twice_example =
    complete_task_twice site failed_result (built running) after_failure built-Settled failure_taken

-- The build with its first compilation done, and nothing counted down yet.
abbrev half : Tx
half = set_task (built running) 0 (row done 0 0)

half-pending :
    (j : ℕ)
    → j < 3
    → (half.build.task j).pending_deps
      ≡ unfinished half.build.task j half.build.edges
        + (nothing_owed j + count_edges j 0 half.build.edges)
unfolding count_edges
half-pending zero below = refl
half-pending (suc zero) below = refl
half-pending (suc (suc zero)) below = refl
half-pending (suc (suc (suc j))) below = absurd (omega arith)

half-waits :
    (j : ℕ) → j < 3 → is_waiting (half.build.task j).state ≡ ltb 0 (half.build.task j).pending_deps
half-waits zero below = refl
half-waits (suc zero) below = refl
half-waits (suc (suc zero)) below = refl
half-waits (suc (suc (suc j))) below = absurd (omega arith)

half-Settled : Settled half.build (λ j. nothing_owed j + count_edges j 0 half.build.edges)
half-Settled = record {
  pending = λ j below. half-pending j below;
  waits = λ j below. half-waits j below;
}

one_waits : count_tasks is_waiting 3 half.build.task < 2
unfolding count_tasks
one_waits = omega arith

finished-Settles_example : Settles half.build nothing_owed (finished (λ s. s) 2 0 half)
finished-Settles_example = finished-Settles (λ s. s) 2 half 0 nothing_owed half-Settled one_waits

abbrev tables : Db
tables = record { builds = λ b. (built ready).build; next_build = 1; cache = λ k. none }

abbrev request : ClaimRequest
request = record { worker = codes "w2"; toolchain = codes "gcc"; part = pos 0 }

abbrev free : Uid → Bool
free u = false

abbrev uid : ℕ → Uid
uid i = record { build = 0; id = i }

abbrev claimed : Db → ℕ → ℕ → Db
claimed db i now =
    set_row db (uid i) (running_row (codes "w2") (now + 60 * 1000) (row_at db (uid i)))

first_claim : try_claim request 60 7000 free tables ≡ some (uid 0, claimed tables 0 7000)
unfolding try_claim choose all_uids uids_of pick is_eligible text_eq
first_claim = refl

second_claim :
    try_claim request 60 8000 free (claimed tables 0 7000)
    ≡ some (uid 1, claimed (claimed tables 0 7000) 1 8000)
unfolding try_claim choose all_uids uids_of pick is_eligible text_eq running_row
second_claim = refl

no_claim : try_claim request 60 9000 free (claimed (claimed tables 0 7000) 1 8000) ≡ none
unfolding try_claim choose all_uids uids_of pick is_eligible text_eq running_row
no_claim = refl

try_claim-Claimed_example : Claimed request 60 7000 free tables (uid 0) (claimed tables 0 7000)
try_claim-Claimed_example =
    try_claim-Claimed request 60 7000 free tables (claimed tables 0 7000) (uid 0) first_claim

try_claim-none_example :
    may_claim request 60 9000 free (claimed (claimed tables 0 7000) 1 8000) (uid 2) ≡ false
try_claim-none_example =
    try_claim-none request 60 9000 free (claimed (claimed tables 0 7000) 1 8000) (uid 2) no_claim
      (omega arith, omega arith)

try_claim-ne_example : uid 0 ≢ uid 1
try_claim-ne_example =
    try_claim-ne request request 60 7000 8000 free free tables (claimed tables 0 7000)
      (claimed (claimed tables 0 7000) 1 8000) (uid 0) (uid 1) first_claim second_claim

abbrev leased : Db
leased = record { builds = λ b. (built running).build; next_build = 1; cache = λ k. none }

heartbeat_keeps_example :
    let x = ((heartbeat (codes "w1") 60 4000 leased).builds 0).task 0 in
    (x.state ≡ running) × (x.lease_owner ≡ some (codes "w1")) × (reap_row 3 50000 x ≡ x)
heartbeat_keeps_example =
    heartbeat_keeps (codes "w1") 60 4000 50000 3 0 0 leased refl refl (omega arith)

reap_build-RoundOf_example :
    RoundOf 3 6000 true (built running) (reap_build 3 6000 true (built running))
reap_build-RoundOf_example = reap_build-RoundOf 3 6000 true (built running)
