-- ===== src/Examples/Runs.antt =====
-- A run of the coordinator: a build is submitted to empty tables, its compilation is claimed, and the
-- worker sends a heartbeat and the result.
use distcompile.Prelude.{
  update, ℕ, ◌<◌, ◌≡◌, refl, Result, ok, ◌||◌, Bool, true, false, Option, none, some, [], codes,
  arith, text_eq,
}
use distcompile.Prelude.Int.{pos}
use distcompile.Cas.{Files, has, path_of, write, valid_hash, all_hex}
use distcompile.Graph.{topo_order, scan_tasks, scan_deps, sources, relax, kahn}
use distcompile.Graph.Rank.{upward_rank, rank_loop, best_of, successors, push_succs, task_cost}
use distcompile.Util.{sha256_parts}
use distcompile.Coordinator.Lines.{action_key}
use distcompile.Coordinator.Rows.{active, is_open, count_tasks}
use distcompile.Coordinator.Finish.{
  Tx, maybe_finish, finished, make_ready, count_down, counted, dependents, dependents_from,
  count_edges, task_key,
}
use distcompile.Coordinator.Complete.{
  TaskResult, Site, complete_task, complete_tx, complete_done, done_row, cache_put,
}
use distcompile.Coordinator.Claim.{
  Db, Uid, ClaimRequest, try_claim, choose, all_uids, uids_of, pick, is_eligible, running_row,
  heartbeat, heartbeat_row, reap_row, reap_rows, given_up,
}
use distcompile.Coordinator.Submit.{
  read_specs, submit_build, submit, visit, visit_all, known_deps, key_draft, more_hits, settle,
  compile_keys, has_twin, has_edge, all_edges, edges_of, spec_at, hit_keys, SubmitError,
}
use distcompile.Coordinator.System.{
  Step, submits, claims, beats, completes, reaps, Reach, here, next, add_build, put_tx, tx_at,
  site_at, World, reap_all, gives_up, SubmitsLeaves, AllLeaves,
}
use distcompile.Coordinator.System.Advances.{IsSane, Advances}
use distcompile.Coordinator.System.Runs.{
  Step-Advances, Reach-IsSane, Reach-live, Lasting, Reach-Lasting,
}
use distcompile.Coordinator.Status.{BuildStatus, status_of, get_build}
use distcompile.Coordinator.Status.Told.{Told}
use distcompile.Examples.Texts.{empty_store}
use distcompile.Examples.Submits.{nothing, request, leaves, rows, hash}

abbrev site : Site
site = record { sha256 = λ s. s; has = λ h. false; size_of = λ h. 8; max_attempts = 3; now = 0 }

-- The blob store with the one blob.
abbrev store : Files
store = write empty_store (path_of (codes "/b") (hash b'b' 64)) (codes "int x;")

abbrev no_tables : Db
no_tables = record { builds = λ b. nothing.build; next_build = 0; cache = λ k. none }

abbrev start : World
start = record { db = no_tables; behind = λ b. false }

start-IsSane : IsSane 3 start
start-IsSane = record {
  builds = λ b h. absurd (omega arith);
  level = λ b h level. absurd (omega arith);
  filled = λ k r e. absurd (cc e);
}

abbrev draft : Result SubmitError Tx
draft = submit_build (λ s. s) (has (codes "/b") store) 2 (codes "gcc") request (λ k. none)

draft-ok : draft ≡ ok (rows draft)
unfolding submit_build read_specs valid_hash all_hex topo_order scan_tasks scan_deps sources relax
    kahn submit visit_all visit known_deps key_draft more_hits settle compile_keys has_twin has_edge
    all_edges edges_of spec_at text_eq has path_of
draft-ok = refl

abbrev queued : Db
queued = add_build no_tables (rows draft)

abbrev queued_world : World
queued_world = record { db = queued; behind = update start.behind 0 false }

submitted : Step site start queued_world
submitted = submits (codes "/b") store 2 (codes "gcc") request (rows draft) draft-ok

submitted-leaves : SubmitsLeaves submitted
unfolding submitted
submitted-leaves = leaves

Step-Advances_example : Advances 3 start queued_world
Step-Advances_example = Step-Advances site (omega arith) submitted submitted-leaves start-IsSane

abbrev q : ClaimRequest
q = record { worker = codes "w1"; toolchain = codes "gcc"; part = pos 0 }

abbrev claimed : Option (Uid × Db)
claimed = try_claim q 30 1000 (λ u. false) queued

abbrev claimed_db : Option (Uid × Db) → Uid × Db
claimed_db none = (record { build = 0; id = 0 }, queued)
claimed_db (some x) = x

claimed-some : claimed ≡ some (claimed_db claimed)
unfolding try_claim choose all_uids uids_of pick is_eligible submit_build read_specs valid_hash
    all_hex topo_order scan_tasks scan_deps sources relax kahn submit visit_all visit known_deps
    key_draft more_hits settle compile_keys has_twin has_edge all_edges edges_of spec_at text_eq has
    path_of maybe_finish count_tasks upward_rank rank_loop best_of successors push_succs task_cost
    hit_keys
claimed-some = refl

abbrev result : TaskResult
result = record {
  task = 0;
  attempt = 1;
  worker = codes "w1";
  ok = true;
  retryable = false;
  output = hash b'b' 64;
  log = [];
}

abbrev beaten : Db
beaten = heartbeat (codes "w1") 30 2000 (claimed_db claimed).1

abbrev reply : Option (Tx × Bool)
reply = complete_task (site_at site (codes "/b") store 3000) result (tx_at beaten 0)

abbrev reply_tx : Option (Tx × Bool) → Tx × Bool
reply_tx none = (nothing, false)
reply_tx (some x) = x

reply-some : reply ≡ some (reply_tx reply)
unfolding try_claim choose all_uids uids_of pick is_eligible submit_build read_specs valid_hash
    all_hex topo_order scan_tasks scan_deps sources relax kahn submit visit_all visit known_deps
    key_draft more_hits settle compile_keys has_twin has_edge all_edges edges_of spec_at text_eq has
    path_of maybe_finish count_tasks upward_rank rank_loop best_of successors push_succs task_cost
    hit_keys complete_task complete_tx complete_done done_row cache_put finished make_ready
    count_down counted dependents dependents_from count_edges heartbeat heartbeat_row running_row
    task_key action_key sha256_parts reap_all reap_rows reap_row given_up
reply-some = refl

abbrev over : Db
over = put_tx beaten 0 (reply_tx reply).0

some_build : 0 < beaten.next_build
unfolding try_claim choose all_uids uids_of pick is_eligible submit_build read_specs valid_hash
    all_hex topo_order scan_tasks scan_deps sources relax kahn submit visit_all visit known_deps
    key_draft more_hits settle compile_keys has_twin has_edge all_edges edges_of spec_at text_eq has
    path_of maybe_finish count_tasks upward_rank rank_loop best_of successors push_succs task_cost
    hit_keys heartbeat
some_build = omega arith

-- The reaper has a round behind that; it gives nothing up.
abbrev over_world : World
over_world = record {
  db = reap_all 3 4000 over;
  behind = λ b. gives_up 3 4000 (over.builds b) || queued_world.behind b;
}

whole_run : Reach site start over_world
whole_run =
    next
      (next
        (next
          (next (next here submitted)
            (claims q 30 1000 (λ u. false) (claimed_db claimed).0 claimed-some))
          (beats (codes "w1") 30 2000))
        (completes (codes "/b") store 0 3000 result (reply_tx reply).0 (reply_tx reply).1 some_build
          reply-some))
      (reaps 4000)

all_leaves : AllLeaves whole_run
unfolding whole_run submitted
all_leaves = (((((tt, leaves), tt), tt), tt), tt)

Reach-IsSane_example : IsSane 3 over_world
Reach-IsSane_example = Reach-IsSane site (omega arith) whole_run all_leaves start-IsSane

Reach-Lasting_example : Lasting start over_world
Reach-Lasting_example = Reach-Lasting site (omega arith) whole_run all_leaves start-IsSane

over-going : (over_world.db.builds 0).state ≡ active
unfolding try_claim choose all_uids uids_of pick is_eligible submit_build read_specs valid_hash
    all_hex topo_order scan_tasks scan_deps sources relax kahn submit visit_all visit known_deps
    key_draft more_hits settle compile_keys has_twin has_edge all_edges edges_of spec_at text_eq has
    path_of maybe_finish count_tasks upward_rank rank_loop best_of successors push_succs task_cost
    hit_keys complete_task complete_tx complete_done done_row cache_put finished make_ready
    count_down counted dependents dependents_from count_edges heartbeat heartbeat_row running_row
    task_key action_key sha256_parts reap_all reap_rows reap_row given_up
over-going = refl

over_build : 0 < over_world.db.next_build
unfolding try_claim choose all_uids uids_of pick is_eligible submit_build read_specs valid_hash
    all_hex topo_order scan_tasks scan_deps sources relax kahn submit visit_all visit known_deps
    key_draft more_hits settle compile_keys has_twin has_edge all_edges edges_of spec_at text_eq has
    path_of maybe_finish count_tasks upward_rank rank_loop best_of successors push_succs task_cost
    hit_keys complete_task complete_tx complete_done done_row cache_put finished make_ready
    count_down counted dependents dependents_from count_edges heartbeat heartbeat_row running_row
    task_key action_key sha256_parts reap_all reap_rows reap_row given_up
over_build = omega arith

over-level : over_world.behind 0 ≡ false
unfolding try_claim choose all_uids uids_of pick is_eligible submit_build read_specs valid_hash
    all_hex topo_order scan_tasks scan_deps sources relax kahn submit visit_all visit known_deps
    key_draft more_hits settle compile_keys has_twin has_edge all_edges edges_of spec_at text_eq has
    path_of maybe_finish count_tasks upward_rank rank_loop best_of successors push_succs task_cost
    hit_keys complete_task complete_tx complete_done done_row cache_put finished make_ready
    count_down counted dependents dependents_from count_edges heartbeat heartbeat_row running_row
    task_key action_key sha256_parts reap_all reap_rows reap_row given_up
over-level = refl

Reach-live_example :
    (j : ℕ) × (j < (over_world.db.builds 0).total)
    × (is_open ((over_world.db.builds 0).task j).state ≡ true)
Reach-live_example =
    Reach-live site (omega arith) 0 whole_run all_leaves start-IsSane over_build over-level
      over-going

-- The task is claimed between the first two queries.
abbrev claimed_world : World
claimed_world = record queued_world { db = (claimed_db claimed).1 }

claimed_run : Reach site queued_world claimed_world
claimed_run = next here (claims q 30 1000 (λ u. false) (claimed_db claimed).0 claimed-some)

abbrev told : Option BuildStatus
told = get_build queued claimed_world.db claimed_world.db 0 true

abbrev told_status : Option BuildStatus → BuildStatus
told_status none = status_of 0 active (queued.builds 0) (queued.builds 0) false
told_status (some st) = st
