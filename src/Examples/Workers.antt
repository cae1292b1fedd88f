-- ===== src/Examples/Workers.antt =====
-- worker.cpp on one compilation, whose input the coordinator sends, and the registration of two workers.
use distcompile.Prelude.{
  ◌≤◌, ◌<◌, All, none, some, length, ◌⊎◌, ℕ, zero, suc, ◌≡◌, refl, true, List, [], ◌∷◌, Text, codes,
  text_eq, is_among, if◌then◌else◌,
}
use distcompile.Prelude.Int.{pos}
use distcompile.Preprocess.{ProcResult}
use distcompile.Util.{sha256_hex, to_hex, hex_digit}
use distcompile.Cas.{Files, write, put, get, has, valid_hash, all_hex, path_of}
use distcompile.Rpc.{no_status, retry_loop, with_retry}
use distcompile.Coordinator.Claim.{Assignment}
use distcompile.Coordinator.Workers.{
  WorkerRow, WorkerInfo, Roster, register_worker, upsert, part_in, is_live, live_parts,
  live_partitions,
}
use distcompile.Coordinator.Workers.Partitions.{
  IsRoster, IsLast, Registered, register_worker-Registered, live_partitions-lt,
}
use distcompile.Worker.{
  Host, Means, allowed_drivers, command, driver_command, keep_blob, fetch, fetch_inputs, upload,
  judge, execute,
}
use distcompile.Worker.Inputs.{Placed, fetch_inputs-Placed}
use distcompile.Worker.Programs.{execute-allowed, other_means, IsAllowed}
use distcompile.Worker.Outputs.{Produced, execute-Produced}
use distcompile.Examples.Texts.{digest, digest-IsDigest, empty_store}

-- The hash of everything, where every digest is 32 zeros.
abbrev pub zeros : ℕ → Text
zeros zero = []
zeros (suc n) = b'0' ∷ zeros n

abbrev program_run : ProcResult × Files
program_run = (
  record { exit_code = pos 0; output = []; stderr = [] },
  write empty_store (codes "out") (codes "object"),
)

-- The number that stands for the network counts the uploads.
abbrev means : Means ℕ
means = record {
  sha256 = digest;
  root = codes "/c";
  cache_writes = λ p. true;
  dir_writes = λ n. true;
  makes_dir = true;
  get_blob = λ d w. (no_status, (w.0, codes "int x;"));
  put_blob = λ h contents net. (no_status, suc net);
  run = λ argv dir. program_run;
}

abbrev host : Host ℕ
host = record { cache = empty_store; dir = empty_store; net = 0 }

abbrev task : Assignment
task = record {
  task_uid = record { build = 0; id = 0 };
  attempt = 1;
  kind = 0;
  name = codes "obj/a.c.o";
  inputs = zeros 64 ∷ [];
  input_names = codes "in.i" ∷ [];
  args = codes "gcc" ∷ codes "-O2" ∷ [];
}

fetch_inputs-Placed_example :
    Placed means
      (zeros 64 ∷ [])
      (codes "in.i" ∷ [])
      host
      (fetch_inputs means (zeros 64 ∷ []) (codes "in.i" ∷ []) host)
fetch_inputs-Placed_example =
    fetch_inputs-Placed means (zeros 64 ∷ []) (codes "in.i" ∷ []) host digest-IsDigest (refl, tt)
      (λ h c v e. absurd (cc))

task_passes : (execute means task host).0.passed ≡ true
unfolding execute fetch_inputs fetch keep_blob command driver_command judge upload put get has
    valid_hash all_hex path_of sha256_hex to_hex hex_digit with_retry retry_loop text_eq
task_passes = refl

execute-Produced_example : Produced means task host (execute means task host)
execute-Produced_example = execute-Produced means task host task_passes

-- A host where no other program works.
abbrev only_allowed : List Text → Files → ProcResult × Files
only_allowed [] dir = (record { exit_code = pos 1; output = []; stderr = [] }, dir)
only_allowed (program ∷ args) dir =
    if is_among program (codes "ar" ∷ allowed_drivers)
    then program_run
    else (record { exit_code = pos 1; output = []; stderr = [] }, dir)

agree :
    (argv : List Text) (dir : Files) → IsAllowed argv → means.run argv dir ≡ only_allowed argv dir
agree [] dir e = absurd (cc e)
agree (program ∷ args) dir e = rw e refl

execute-allowed_example :
    execute (other_means means only_allowed) task host ≡ execute means task host
execute-allowed_example = execute-allowed means only_allowed task host agree

-- Two workers, the first of which registers again.
abbrev info : Text → WorkerInfo
info id = record { id = id; toolchain = codes "gcc"; slots = 2 }

abbrev empty_roster : Roster
empty_roster = record { rows = []; worker_part = λ w. none }

empty_roster-IsRoster : IsRoster empty_roster
empty_roster-IsRoster = record { numbered = tt; remembered = λ w p e. absurd (cc e) }

abbrev first_roster : Roster
first_roster = register_worker (info (codes "w1")) 0 1000 empty_roster

first_roster-IsRoster : IsRoster first_roster
first_roster-IsRoster =
    (register_worker-Registered (info (codes "w1")) 0 1000 empty_roster (λ fresh. refl)
      empty_roster-IsRoster).roster

first_count : 1 ≡ length first_roster.rows
unfolding register_worker upsert
first_count = refl

register_worker-Registered_example :
    Registered
      (info (codes "w2"))
      first_roster
      (register_worker (info (codes "w2")) 1 2000 first_roster)
register_worker-Registered_example =
    register_worker-Registered (info (codes "w2")) 1 2000 first_roster (λ fresh. first_count)
      first_roster-IsRoster

-- Of two registrations at once, the second counts no rows either, and both workers get partition 0.
shared_part :
    (part_in (codes "w1") (register_worker (info (codes "w2")) 0 1000 first_roster).rows ≡ some 0)
    × (part_in (codes "w2") (register_worker (info (codes "w2")) 0 1000 first_roster).rows ≡ some 0)
unfolding register_worker upsert part_in text_eq
shared_part = (refl, refl)

-- Only the worker of partition 5 is live, and there are 6 partitions.
abbrev old_worker : Text → ℕ → ℕ → WorkerRow
old_worker id part seen = record {
  id = id;
  toolchain = codes "gcc";
  slots = 2;
  part = part;
  last_seen = seen;
}

abbrev restarted : Roster
restarted = record {
  rows = old_worker (codes "w1") 0 1000 ∷ old_worker (codes "w6") 5 70000 ∷ [];
  worker_part = λ w. none;
}

live_partitions-lt_example :
    (1 ≤ live_partitions 75000 restarted)
    × All (λ r. is_live 75000 r ≡ true → r.part < live_partitions 75000 restarted) restarted.rows
    × (live_partitions 75000 restarted ≡ 1
        ⊎ IsLast 75000 (live_partitions 75000 restarted) restarted.rows)
live_partitions-lt_example = live_partitions-lt 75000 restarted

six_partitions : live_partitions 75000 restarted ≡ 6
unfolding live_partitions live_parts
six_partitions = refl
