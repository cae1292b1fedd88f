-- ===== src/Worker/Outputs.antt =====
-- What a worker reports as done.
use distcompile.Prelude.{
  ◌≡◌, refl, sym, ap, subst, inl, inr, Bool, true, false, Option, none, some, List, [], ◌∷◌, Text,
  codes, ◌==◌, Bool-cases, Option-cases, ok, err, err-injective, Result-cases, is_among, length,
}
use distcompile.Prelude.Int.{is_zero}
use distcompile.Preprocess.{ProcResult}
use distcompile.Cas.{write, put}
use distcompile.Rpc.{is_success, with_retry}
use distcompile.Coordinator.Claim.{Assignment}
use distcompile.Worker.{
  Host, Means, Verdict, fail, allowed_drivers, driver_command, command, fetch, fetch_inputs, upload,
  judge, run_command, execute, empty_dir, has_slash, default_attempts,
}
use distcompile.Worker.Programs.{IsAllowed, command-IsAllowed}

-- A program whose run is reported as a success: it exited with 0 and left the output, and the output
-- arrived at the coordinator under the name that is reported.
pub record Made {ℓ} {Net : Type ℓ} (means : Means Net) (argv : List Text) (h : Host Net)
    (out : Verdict × Host Net) : Type ℓ where
  pub contents : Text
  pub exited : is_zero (means.run argv h.dir).0.exit_code ≡ true
  pub left : (means.run argv h.dir).1 (codes "out") ≡ some contents
  pub output : out.0.output ≡ (put means.sha256 means.cache_writes means.root contents [] h.cache).0
  pub sent :
      is_success
        (with_retry (means.put_blob out.0.output contents) default_attempts h.net).status.code
      ≡ true

-- A task that is reported as done: its inputs were put in place, and its command, an allowed one,
-- made the output from them.
pub record Produced {ℓ} {Net : Type ℓ} (means : Means Net) (a : Assignment) (h : Host Net)
    (out : Verdict × Host Net) : Type ℓ where
  pub argv : List Text
  pub placed : Host Net
  pub inputs :
      fetch_inputs means a.inputs a.input_names (record h { dir = empty_dir }) ≡ (none, placed)
  pub commanded : command a ≡ ok argv
  pub allowed : IsAllowed argv
  pub made : Made means argv placed out

failure-fails :
    (why : Text) (retry : Bool) (v : Verdict)
    → ◌≡◌ {A = Option Verdict} (some (fail why retry)) (some v)
    → v.passed ≡ false
failure-fails why retry v e = let same : fail why retry ≡ v = cc e in sym (ap (λ x. x.passed) same)

module _ {ℓ} {Net : Type ℓ} (means : Means Net) where
  upload-Made :
      (argv : List Text) (pr : ProcResult) (contents : Text) (h : Host Net)
      → is_zero (means.run argv h.dir).0.exit_code ≡ true
      → (means.run argv h.dir).1 (codes "out") ≡ some contents
      → let out = upload means pr contents (record h { dir = (means.run argv h.dir).1 }) in
        out.0.passed ≡ true → Made means argv h out
  unfolding upload
  upload-Made argv pr contents h exited left passed =
      let kept = put means.sha256 means.cache_writes means.root contents [] h.cache in
      let sent = with_retry (means.put_blob kept.0 contents) default_attempts h.net in
      elim (Bool-cases (is_success sent.status.code)) [
        | inr lost ↦ absurd (cc (rw (lost, upload) at passed))
        | inl good ↦
            rw (good, upload)
              (record {
                contents = contents;
                exited = exited;
                left = left;
                output = refl;
                sent = good;
              })
      ]

  run_command-Made :
      (argv : List Text) (h : Host Net)
      → (run_command means argv h).0.passed ≡ true
      → Made means argv h (run_command means argv h)
  unfolding judge
  run_command-Made argv h passed =
      let r = means.run argv h.dir in
      elim (Bool-cases (is_zero r.0.exit_code)) [
        | inr bad ↦ absurd (cc (rw (bad, judge) at passed))
        | inl good ↦ elim (Option-cases (r.1 (codes "out"))) [
          | inl nothing ↦ absurd (cc (rw (good, nothing, judge) at passed))
          | inr (contents, left) ↦
              rw (good, left, judge)
                (upload-Made argv r.0 contents h good left (rw (good, left, judge) at passed))
        ]
      ]

  -- A verdict that ends the loop over the inputs is a failure.
  fetch_inputs-fails :
      (digests names : List Text) (h : Host Net) (v : Verdict)
      → (fetch_inputs means digests names h).0 ≡ some v
      → v.passed ≡ false
  unfolding fetch_inputs
  fetch_inputs-fails [] [] h v e = absurd (cc e)
  fetch_inputs-fails [] (n ∷ names) h v e = absurd (cc e)
  fetch_inputs-fails (i ∷ digests) [] h v e = absurd (cc e)
  fetch_inputs-fails (i ∷ digests) (n ∷ names) h v e = elim (Option-cases (fetch means i h).0) [
    | inl missing ↦ failure-fails _ _ v (rw (missing, fetch_inputs) at e)
    | inr (contents, got) ↦ elim (Bool-cases (has_slash n)) [
      | inl outside ↦ failure-fails _ _ v (rw (got, outside, fetch_inputs) at e)
      | inr inside ↦ elim (Bool-cases (means.dir_writes n)) [
        | inr full ↦ failure-fails _ _ v (rw (got, inside, full, fetch_inputs) at e)
        | inl taken ↦
            fetch_inputs-fails digests names
              (record (fetch means i h).1 { dir = write (fetch means i h).1.dir n contents }) v
              (rw (got, inside, taken, fetch_inputs) at e)
      ]
    ]
  ]

  driver_command-fails :
      (why : Text) (args : List Text) (build : Text → List Text → List Text) (v : Verdict)
      → driver_command why args build ≡ err v
      → v.passed ≡ false
  unfolding driver_command
  driver_command-fails why [] build v e = sym (ap (λ x. x.passed) (err-injective e))
  driver_command-fails why (driver ∷ args) build v e =
      elim (Bool-cases (is_among driver allowed_drivers)) [
        | inl good ↦ absurd (cc (rw (good, driver_command) at e))
        | inr bad ↦ sym (ap (λ x. x.passed) (err-injective (rw (bad, driver_command) at e)))
      ]

  command-fails : (a : Assignment) (v : Verdict) → command a ≡ err v → v.passed ≡ false
  unfolding command
  command-fails a v e = elim (Bool-cases (a.kind == 0)) [
    | inl compile ↦ driver_command-fails _ a.args _ v (rw (compile, command) at e)
    | inr other ↦ elim (Bool-cases (a.kind == 1)) [
      | inl archive ↦ absurd (cc (rw (other, archive, command) at e))
      | inr link ↦ driver_command-fails _ a.args _ v (rw (other, link, command) at e)
    ]
  ]

  execute-runs :
      (a : Assignment) (h : Host Net) (argv : List Text)
      → let loop = fetch_inputs means a.inputs a.input_names (record h { dir = empty_dir }) in
        (length a.inputs == length a.input_names) ≡ true
        → means.makes_dir ≡ true
        → loop.0 ≡ none
        → command a ≡ ok argv
        → execute means a h ≡ run_command means argv loop.1
  unfolding execute
  execute-runs a h argv even somewhere complete commanded =
      simp (even, somewhere, complete, commanded, execute)

  -- A task that `execute` reports as passed was produced by a program that the worker may run: its
  -- inputs were put in place without a failure, its program exited with 0 and left the output, and
  -- the upload of this output, under the hash that is reported, was answered with success.
  pub execute-Produced :
      (a : Assignment) (h : Host Net)
      → (execute means a h).0.passed ≡ true
      → Produced means a h (execute means a h)
  unfolding execute
  execute-Produced a h passed =
      let start = record h { dir = empty_dir } in
      let loop = fetch_inputs means a.inputs a.input_names start in
      elim (Bool-cases (length a.inputs == length a.input_names)) [
        | inr uneven ↦ absurd (cc (rw (uneven, execute) at passed))
        | inl even ↦ elim (Bool-cases means.makes_dir) [
          | inr nowhere ↦ absurd (cc (rw (even, nowhere, execute) at passed))
          | inl somewhere ↦ elim (Option-cases loop.0) [
            | inr (v, early) ↦ absurd (
                cc (
                  rw (even, somewhere, early, execute) at passed,
                  fetch_inputs-fails a.inputs a.input_names start v early,
                ))
            | inl complete ↦ elim (Result-cases (command a)) [
              | inl (v, refused) ↦ absurd (
                  cc (
                    rw (even, somewhere, complete, refused, execute) at passed,
                    command-fails a v refused,
                  ))
              | inr (argv, commanded) ↦
                  let same = execute-runs a h argv even somewhere complete commanded in
                  subst (Produced means a h) (sym same) (record {
                    argv = argv;
                    placed = loop.1;
                    inputs = ap (λ o. (o, loop.1)) complete;
                    commanded = commanded;
                    allowed = command-IsAllowed a argv commanded;
                    made =
                        run_command-Made argv loop.1
                          (subst (λ out. out.0.passed ≡ true) same passed);
                  })
            ]
          ]
        ]
      ]
