-- ===== src/Coordinator/System.antt =====
-- The coordinator as a whole: its tables, and the transactions that its handlers and its reaper run on
-- them, one after the other in any order. What a crash of PostgreSQL loses is left out.
pub mod Builds
pub mod Steps
pub mod Reaps
pub mod Live
pub mod Advances
pub mod Runs
use distcompile.Prelude.{
  update, ℕ, suc, ◌+◌, ◌<◌, ◌≡◌, Bool, true, false, ◌||◌, Option, none, some, List, [], Text, ltb,
  ok,
}
use distcompile.Cas.{Files, has, size_of}
use distcompile.Coordinator.Rows.{Build}
use distcompile.Coordinator.Finish.{Tx, maybe_finish}
use distcompile.Coordinator.Complete.{TaskResult, Site, complete_task}
use distcompile.Coordinator.Claim.{Db, Uid, ClaimRequest, try_claim, heartbeat, reap_rows, given_up}
use distcompile.Coordinator.Submit.{TaskSpec, is_compile, spec_at, submit_build}

-- The rows of one build, with the cache.
abbrev pub tx_at : Db → ℕ → Tx
tx_at db b = record { build = db.builds b; cache = db.cache }

abbrev pub put_tx : Db → ℕ → Tx → Db
put_tx db b s = record db { builds = update db.builds b s.build; cache = s.cache }

-- `INSERT INTO builds`
abbrev pub add_build : Db → Tx → Db
add_build db s = record {
  builds = update db.builds db.next_build s.build;
  next_build = suc db.next_build;
  cache = s.cache;
}

-- What the coordinator answers from its blob store, as its files are at the time.
abbrev pub size_or_zero : Option ℕ → ℕ
size_or_zero none = 0
size_or_zero (some n) = n

abbrev pub site_at : Site → Text → Files → ℕ → Site
site_at site root files now = record site {
  has = has root files;
  size_of = λ h. size_or_zero (size_of root files h);
  now = now;
}

-- The tables, and the builds with which the coordinator is behind: `maybe_finish` owes them a look. The
-- reaper is behind with a build of which it gave up a task, until it comes to it in a statement of its own;
-- when one of these throws, the round is over, and the builds that are left stay behind. Completions
-- are behind with a build when two of them overlapped.
pub record World : Type 0 where
  pub db : Db
  pub behind : ℕ → Bool

-- The UPDATE "reap": the rows of all builds.
unfoldable pub reap_all : ℕ → ℕ → Db → Db
unfolding reap_rows
reap_all max_attempts now db = record db {
  builds = λ b. (reap_rows max_attempts now (tx_at db b)).build;
}

-- Whether the UPDATE returns a failed row of the build.
abbrev pub gives_up : ℕ → ℕ → Build → Bool
gives_up max_attempts now b = ltb 0 (given_up max_attempts now b.total b.task)

-- One transaction, or one statement that is a transaction by itself. The worker, the client, the clock
-- and the files of the blob store, which change all the time, choose the arguments.
pub data Step (site : Site) : World → World → Type 0 where
  submits :
      {x : World} (root : Text) (files : Files) (parts : ℕ) (toolchain : Text)
      (specs : List TaskSpec) (s : Tx)
      → submit_build site.sha256 (has root files) parts toolchain specs x.db.cache ≡ ok s
      → Step site x
          (record { db = add_build x.db s; behind = update x.behind x.db.next_build false })
  claims :
      {x : World} {db' : Db} (q : ClaimRequest) (lease_s now : ℕ) (locked : Uid → Bool) (u : Uid)
      → try_claim q lease_s now locked x.db ≡ some (u, db')
      → Step site x (record x { db = db' })
  beats :
      {x : World} (worker : Text) (lease_s now : ℕ)
      → Step site x (record x { db = heartbeat worker lease_s now x.db })
  completes :
      {x : World} (root : Text) (files : Files) (b now : ℕ) (r : TaskResult) (s : Tx)
      (accepted : Bool)
      → b < x.db.next_build
      → complete_task (site_at site root files now) r (tx_at x.db b) ≡ some (s, accepted)
      → Step site x (record x { db = put_tx x.db b s })
  -- A completion that overlaps with others: at READ COMMITTED its `maybe_finish` does not count the tasks
  -- that they finish, so it may leave the build in the state that it had.
  overlaps :
      {x : World} (root : Text) (files : Files) (b now : ℕ) (r : TaskResult) (s : Tx)
      (accepted : Bool)
      → b < x.db.next_build
      → complete_task (site_at site root files now) r (tx_at x.db b) ≡ some (s, accepted)
      → Step site x (record {
        db =
            put_tx x.db b (record s { build = record (s.build) { state = (x.db.builds b).state } });
        behind = update x.behind b true;
      })
  reaps :
      {x : World} (now : ℕ)
      → Step site x (record {
        db = reap_all site.max_attempts now x.db;
        behind = λ b. gives_up site.max_attempts now (x.db.builds b) || x.behind b;
      })
  looks :
      {x : World} (b : ℕ)
      → b < x.db.next_build
      → Step site x (record {
        db = put_tx x.db b (maybe_finish (tx_at x.db b));
        behind = update x.behind b false;
      })

pub data Reach (site : Site) (x : World) : World → Type 0 where
  here : Reach site x x
  next : {y z : World} → Reach site x y → Step site y z → Reach site x z

-- The compilations of a request depend on nothing, as those of the client.
abbrev pub HasLeaves : List TaskSpec → Type 0
HasLeaves specs = (i : ℕ) → is_compile (spec_at specs i) ≡ true → (spec_at specs i).deps ≡ []

-- In what is submitted, compilations depend on nothing.
abbrev pub SubmitsLeaves : {site : Site} {x y : World} → Step site x y → Type 0
SubmitsLeaves (submits root files parts toolchain specs s e) = HasLeaves specs
SubmitsLeaves (claims q lease_s now locked u e) = Unit {0}
SubmitsLeaves (beats worker lease_s now) = Unit {0}
SubmitsLeaves (completes root files b now r s accepted below e) = Unit {0}
SubmitsLeaves (overlaps root files b now r s accepted below e) = Unit {0}
SubmitsLeaves (reaps now) = Unit {0}
SubmitsLeaves (looks b below) = Unit {0}

abbrev pub AllLeaves : {site : Site} {x y : World} → Reach site x y → Type 0
AllLeaves here = Unit {0}
AllLeaves (next run step) = AllLeaves run × SubmitsLeaves step
