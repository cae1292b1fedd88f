-- ===== src/Lib.antt =====
-- DistCompile: a distributed build system. A client (`dcc`) reads a DCBUILD file, preprocesses the
-- sources, and submits a graph of compile, archive and link tasks to the coordinator; workers claim
-- ready tasks under a lease, run them, and report; the tables are in PostgreSQL, the inputs and
-- outputs in a blob store that is addressed by SHA-256; and an action cache lets a task be skipped
-- whose key was seen before.
--
-- Which file models which part (paths from the root of the repository; the names of definitions are
-- those of the functions that they translate):
--   Util          src/util.cpp: sha256_hex, split_ws, trim, basename_of
--   Cas           src/cas.cpp, and PutBlobs and FindMissing of src/coordinator.cpp
--   Db            src/db.cpp: pg_array, parse_pg_array; Db/Transaction DbError and transaction of
--                 src/db.h; Db/Pool its class Pool
--   Preprocess    src/preprocess.cpp: make_config, strip_line_markers, marker_files, compile_key,
--                 preprocess
--   Manifest      src/manifest.cpp: parse_manifest
--   Graph         src/graph.cpp: topo_order; Graph/Rank upward_rank; Graph/Partition partition
--   Coordinator   src/coordinator.cpp: Lines its text helpers, Rows the tables of sql/schema.sql,
--                 Finish the functions finished, make_ready and maybe_finish, Complete the handler
--                 CompleteTask, Claim the functions try_claim, heartbeat and a round of reap_loop,
--                 Submit the functions submit_build and submit, Workers the functions
--                 register_worker, live_partitions, partition_of and the second statement of
--                 heartbeat, Status the functions get_build, check_cache and GetBlob; Lifecycle the
--                 diagram of a task's states, System the runs of all of these transactions
--   Worker        src/worker.cpp: fetch, execute, and the result that loop sends
--   Rpc           src/rpc.h: with_retry
--   Client        src/dcc.cpp: stamp, still_valid, run_preprocess, lang_of, and of build the units and the
--                 graph of tasks (`TransUnit` is its struct Unit); Client/Upload the uploads of build
--   Examples      the theorems at concrete values
-- A file in a folder of the same name holds the lemmas and theorems of its parent.
--
-- How the code corresponds to the model: a transaction is a function of the rows that it reads and
-- writes (`Tx`: a build with its tasks and edges, and the cache); an SQL statement is the function on
-- rows that it denotes, with its WHERE clause written out; a vector or a table indexed by task ids is
-- a function of the id, beside its size. FOR UPDATE SKIP LOCKED is a set of locked rows that a claim
-- passes over. System is the relation of the coordinator's steps. A step is a transaction, or a
-- statement outside one, which is a transaction by itself: the reaper's UPDATE and each maybe_finish
-- behind it are steps of their own, between which anything may run and an error may end the round, and
-- get_build reads three states of the tables. Steps run one after the other, in any order; a worker may
-- report any result for any task, at any time, and the files of the blob store are others at every
-- step. Two overlaps of statements have steps or arguments of their own: a completion whose
-- maybe_finish does not count what others finish at the same time (`overlaps`), and a registration that
-- does not count another one. What is lost when PostgreSQL crashes (it runs with synchronous_commit off) is left
-- out: the tables are then those of an earlier point of a run.
-- What a caller must keep to is a hypothesis: `AllLeaves` says that in the builds of a run the
-- compilations depend on nothing, which submit_build does not test.
-- A std::string is the list of its bytes. Exceptions and error statuses are `err` of a result, without
-- the words of the message.
--
-- Parameters: SHA-256 (of which `IsDigest` says that a digest has 32 bytes), glob, the compiler that
-- preprocesses, running a program, the calls of a stub with what the network and the other side do to
-- them, mkdtemp, whether the disk takes a file, what the blob store answers to the coordinator, the
-- statements BEGIN, COMMIT and ROLLBACK with their errors, connecting again, and the clock in
-- milliseconds.
--
-- Numbers: indexes and counters are natural numbers; ids, costs and ranks, which the code keeps
-- signed, are integers without a bound, so that the wrap of int64_t sums is not modelled; the length
-- prefix of a hashed part is the low 64 bits of the length.
--
-- Fuel: Kahn's loop runs on as many rounds as there are tasks and the countdown of a completion on one
-- more than the number of tasks (each task waits for one countdown at most that makes it ready).
-- to_string divides by ten, on the number itself plus one. transaction and with_retry bound their
-- attempts themselves, and the model runs on what they have left.
--
-- Not modelled: the class Conn, which is calls of libpq, and connect, which is a call of gRPC;
-- processes, files other than blobs, timers and statistics with GetStats; the long poll of claim_task
-- and wake_workers; main and the parsing of options; toolchain_id; the text of the client's state file,
-- its downloads and report; the threads of the worker, its registration, its heartbeats and its
-- simulated crash. These are threads, clocks and I/O, apart from the state file.

pub mod Prelude
pub mod Util
pub mod Db
pub mod Preprocess
pub mod Manifest
mod Examples
pub mod Cas
pub mod Graph
pub mod Coordinator
pub mod Client
pub mod Rpc
pub mod Worker
