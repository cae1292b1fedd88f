-- ===== src/Worker.antt =====
-- worker.cpp: what a slot of `dc-worker` does with a task that it claimed. The host is its blob cache,
-- the temporary directory of the task (by names relative to it) and the state of the network and of the
-- coordinator behind it; the stub's calls, running a program, and whether the disk takes a file are
-- parameters. Times, statistics, threads and the simulated crash are left out.
pub mod Inputs
pub mod Programs
pub mod Outputs
use distcompile.Prelude.{
  ℕ, zero, suc, ◌+◌, Bool, true, false, not, ◌||◌, Option, none, some, List, [], ◌∷◌, ◌++◌, Text,
  codes, ◌==◌, if◌then◌else◌, length, is_empty, is_among, Result, ok, err,
}
use distcompile.Prelude.Int.{ℤ, pos, negsuc, is_zero}
use distcompile.Preprocess.{ProcResult}
use distcompile.Cas.{Files, write, put, get}
use distcompile.Rpc.{Status, Outcome, is_success, with_retry}
use distcompile.Coordinator.Lines.{to_string}
use distcompile.Coordinator.Claim.{Assignment}
use distcompile.Coordinator.Complete.{TaskResult}

-- `kAllowedDrivers`
abbrev pub allowed_drivers : List Text
allowed_drivers =
    codes "gcc" ∷ codes "g++" ∷ codes "cc" ∷ codes "c++" ∷ codes "clang" ∷ codes "clang++" ∷ []

-- The fields of a TaskResult that `execute` sets.
pub record Verdict : Type 0 where
  pub passed : Bool
  pub retryable : Bool
  pub output : Text
  pub log : Text

abbrev pub fail : Text → Bool → Verdict
fail why retry = record { passed = false; retryable = retry; output = []; log = why }

pub record Host {ℓ} (Net : Type ℓ) : Type ℓ where
  pub cache : Files
  pub dir : Files
  pub net : Net

-- What the worker is given. `get_blob` acts on the message of the reply too; `makes_dir` is mkdtemp.
pub record Means {ℓ} (Net : Type ℓ) : Type ℓ where
  pub sha256 : Text → Text
  pub root : Text
  pub cache_writes : Text → Bool
  pub dir_writes : Text → Bool
  pub makes_dir : Bool
  pub get_blob : Text → Net × Text → Status × (Net × Text)
  pub put_blob : Text → Text → Net → Status × Net
  pub run : List Text → Files → ProcResult × Files

-- The default of `with_retry`.
abbrev pub default_attempts : ℕ
default_attempts = 8

abbrev pub has_slash : Text → Bool
has_slash [] = false
has_slash (c ∷ n) = (c == b'/') || has_slash n

abbrev pub empty_dir : Files
empty_dir p = none

-- The program and its arguments.
unfoldable pub driver_command :
    Text → List Text → (Text → List Text → List Text) → Result Verdict (List Text)
driver_command why [] build = err (fail why false)
driver_command why (driver ∷ args) build =
    if not (is_among driver allowed_drivers) then err (fail why false) else ok (build driver args)

unfoldable pub command : Assignment → Result Verdict (List Text)
unfolding driver_command
command a =
    if a.kind == 0
    then driver_command (codes "compiler not allowed") a.args (λ driver args.
      driver ∷ (args ++ (codes "-c" ∷ codes "in.i" ∷ codes "-o" ∷ codes "out" ∷ [])))
    else if a.kind == 1
    then ok (codes "ar" ∷ codes "rcsD" ∷ codes "out" ∷ a.input_names)
    else driver_command (codes "linker driver not allowed") a.args
        (λ driver args. driver ∷ codes "-o" ∷ codes "out" ∷ (a.input_names ++ args))

-- std::to_string of an int
abbrev pub int_text : ℤ → Text
int_text (pos n) = to_string n
int_text (negsuc n) = b'-' ∷ to_string (n + 1)

module _ {ℓ} {Net : Type ℓ} (means : Means Net) where
  -- The reply of GetBlob, put into the cache.
  unfoldable pub keep_blob : Text → Outcome (Net × Text) → Host Net → Option Text × Host Net
  keep_blob digest out h =
      let blob = out.world.1 in
      let kept = put means.sha256 means.cache_writes means.root blob digest h.cache in
      if not (is_success out.status.code)
      then (none, record h { net = out.world.0 })
      else if is_empty kept.0
      then (none, record h { net = out.world.0; cache = kept.1 })
      else (some blob, record h { net = out.world.0; cache = kept.1 })

  unfoldable pub fetch : Text → Host Net → Option Text × Host Net
  unfolding keep_blob
  fetch digest h = elim (get means.root h.cache digest) [
    | some contents ↦ (some contents, h)
    | none ↦ keep_blob digest (with_retry (means.get_blob digest) default_attempts (h.net, [])) h
  ]

  -- The loop over the inputs: the verdict that ends it early, if any.
  unfoldable pub fetch_inputs : List Text → List Text → Host Net → Option Verdict × Host Net
  unfolding fetch
  fetch_inputs [] names h = (none, h)
  fetch_inputs (digest ∷ digests) [] h = (none, h)
  fetch_inputs (digest ∷ digests) (name ∷ names) h =
      let (got, h') = fetch digest h in
      elim got [
        | none ↦ (some (fail (codes "could not fetch input " ++ digest) true), h')
        | some contents ↦ elim (has_slash name) [
          | true ↦ (some (fail (codes "bad input name") false), h')
          | false ↦ elim (means.dir_writes name) [
            | true ↦ fetch_inputs digests names (record h' { dir = write h'.dir name contents })
            | false ↦ (some (fail (codes "disk write failed") true), h')
          ]
        ]
      ]

  -- The output goes to the cache and to the coordinator; the program's output is the log (warnings).
  unfoldable pub upload : ProcResult → Text → Host Net → Verdict × Host Net
  upload pr contents h =
      let kept = put means.sha256 means.cache_writes means.root contents [] h.cache in
      let sent = with_retry (means.put_blob kept.0 contents) default_attempts h.net in
      let h' = record h { cache = kept.1; net = sent.world } in
      if not (is_success sent.status.code)
      then (fail (codes "upload failed: " ++ sent.status.error_message) true, h')
      else (record { passed = true; retryable = false; output = kept.0; log = pr.output }, h')

  -- What follows `run_process`.
  unfoldable pub judge : ProcResult × Files → Host Net → Verdict × Host Net
  unfolding upload
  judge (pr, files) h =
      let h' = record h { dir = files } in
      elim (is_zero pr.exit_code) [
        | false ↦
            let log =
              if is_empty pr.output then codes "exit " ++ int_text pr.exit_code else pr.output in
            (fail log false, h')
        | true ↦ elim (files (codes "out")) [
          | none ↦ (fail (codes "no output file") false, h')
          | some contents ↦ upload pr contents h'
        ]
      ]

  abbrev pub run_command : List Text → Host Net → Verdict × Host Net
  run_command argv h = judge (means.run argv h.dir) h

  unfoldable pub execute : Assignment → Host Net → Verdict × Host Net
  unfolding fetch_inputs command judge
  execute a h = elim (length a.inputs == length a.input_names) [
    | false ↦ (fail (codes "inputs and names don't line up") false, h)
    | true ↦ elim means.makes_dir [
      | false ↦ (fail (codes "mkdtemp failed") true, h)
      | true ↦
          let (early, h') = fetch_inputs a.inputs a.input_names (record h { dir = empty_dir }) in
          elim early [
            | some verdict ↦ (verdict, h')
            | none ↦ elim (command a) [
              | err verdict ↦ (verdict, h')
              | ok argv ↦ run_command argv h'
            ]
          ]
    ]
  ]

  -- One round of `loop` behind a claim: the result that is sent. `injected` is the failure that
  -- `--fail-rate` injects.
  unfoldable pub work : Text → Bool → Assignment → Host Net → TaskResult × Host Net
  unfolding execute
  work worker injected a h =
      let (verdict, h') =
        if injected then (fail (codes "injected failure") true, h) else execute a h in
      (
        record {
          task = a.task_uid.id;
          attempt = a.attempt;
          worker = worker;
          ok = verdict.passed;
          retryable = verdict.retryable;
          output = verdict.output;
          log = verdict.log;
        },
        h',
      )
