-- ===== src/Worker/Programs.antt =====
-- Which programs a worker runs.
use distcompile.Prelude.{
  ◌≡◌, refl, sym, ap, subst, ◌∙◌, inl, inr, true, false, List, [], ◌∷◌, Text, codes, arith, ◌==◌,
  Bool-cases, Option-cases, ok, ok-injective, Result-cases, is_among, length, text_eq,
}
use distcompile.Preprocess.{ProcResult}
use distcompile.Cas.{write, Files}
use distcompile.Coordinator.Claim.{Assignment}
use distcompile.Worker.{
  keep_blob, Host, Means, allowed_drivers, driver_command, command, fetch, fetch_inputs, upload,
  judge, run_command, execute, empty_dir, has_slash,
}

-- A program that the worker may run: `ar`, or one of the compilers that it expects.
abbrev pub IsAllowed : List Text → Type 0
IsAllowed [] = false ≡ true
IsAllowed (program ∷ args) = is_among program (codes "ar" ∷ allowed_drivers) ≡ true

driver_command-IsAllowed :
    (why : Text) (args : List Text) (build : Text → List Text → List Text) (argv : List Text)
    → ((driver : Text) (rest : List Text)
        → is_among driver allowed_drivers ≡ true
        → IsAllowed (build driver rest))
    → driver_command why args build ≡ ok argv
    → IsAllowed argv
unfolding driver_command
driver_command-IsAllowed why [] build argv h e = cc
driver_command-IsAllowed why (driver ∷ args) build argv h e =
    elim (Bool-cases (is_among driver allowed_drivers)) [
      | inl good ↦
          subst IsAllowed (ok-injective (rw (good, driver_command) at e)) (h driver args good)
      | inr bad ↦ absurd (cc (rw (bad, driver_command) at e))
    ]

among-ar :
    (driver : Text)
    → is_among driver allowed_drivers ≡ true
    → is_among driver (codes "ar" ∷ allowed_drivers) ≡ true
among-ar driver h = ground arith

pub command-IsAllowed : (a : Assignment) (argv : List Text) → command a ≡ ok argv → IsAllowed argv
unfolding command text_eq
command-IsAllowed a argv e = elim (Bool-cases (a.kind == 0)) [
  | inl compile ↦
      driver_command-IsAllowed (codes "compiler not allowed") a.args _ argv
        (λ driver rest good. among-ar driver good) (rw (compile, command) at e)
  | inr other ↦ elim (Bool-cases (a.kind == 1)) [
    | inl archive ↦ subst IsAllowed (ok-injective (rw (other, archive, command) at e)) refl
    | inr link ↦
        driver_command-IsAllowed (codes "linker driver not allowed") a.args _ argv
          (λ driver rest good. among-ar driver good) (rw (other, link, command) at e)
  ]
]

-- Two sets of means that differ in what programs do, but not in what an allowed program does.
module _ {ℓ} {Net : Type ℓ} (means : Means Net)
    (run' : List Text → Files → ProcResult × Files) where
  abbrev pub other_means : Means Net
  other_means = record means { run = run' }

  fetch-run : (digest : Text) (h : Host Net) → fetch other_means digest h ≡ fetch means digest h
  unfolding fetch keep_blob
  fetch-run digest h = refl

  fetch_inputs-run :
      (digests names : List Text) (h : Host Net)
      → fetch_inputs other_means digests names h ≡ fetch_inputs means digests names h
  unfolding fetch_inputs
  fetch_inputs-run [] names h = refl
  fetch_inputs-run (i ∷ digests) [] h = refl
  fetch_inputs-run (i ∷ digests) (n ∷ names) h = elim (Option-cases (fetch means i h).0) [
    | inl missing ↦ simp (fetch-run i h, missing, fetch_inputs)
    | inr (contents, got) ↦ elim (Bool-cases (has_slash n)) [
      | inl outside ↦ simp (fetch-run i h, got, outside, fetch_inputs)
      | inr inside ↦ elim (Bool-cases (means.dir_writes n)) [
        | inr full ↦ simp (fetch-run i h, got, inside, full, fetch_inputs)
        | inl taken ↦
            let h' = (fetch means i h).1 in
            simp (
              fetch-run i h,
              got,
              inside,
              taken,
              fetch_inputs,
              fetch_inputs-run digests names (record h' { dir = write h'.dir n contents }),
            )
      ]
    ]
  ]

  judge-run : (r : ProcResult × Files) (h : Host Net) → judge other_means r h ≡ judge means r h
  unfolding judge upload
  judge-run r h = refl

  run_command-run :
      (argv : List Text) (h : Host Net)
      → means.run argv h.dir ≡ run' argv h.dir
      → run_command other_means argv h ≡ run_command means argv h
  run_command-run argv h same = judge-run (run' argv h.dir) h ∙ ap (λ r. judge means r h) (sym same)

  -- What a worker reports does not depend on any program but `ar` and the compilers that it expects:
  -- with another `run` that agrees on their commands, `execute` gives the same verdict and leaves
  -- the same host.
  pub execute-allowed :
      (a : Assignment) (h : Host Net)
      → ((argv : List Text) (dir : Files) → IsAllowed argv → means.run argv dir ≡ run' argv dir)
      → execute other_means a h ≡ execute means a h
  unfolding execute
  execute-allowed a h agree =
      let loop = fetch_inputs means a.inputs a.input_names (record h { dir = empty_dir }) in
      let same = fetch_inputs-run a.inputs a.input_names (record h { dir = empty_dir }) in
      elim (Bool-cases (length a.inputs == length a.input_names)) [
        | inr uneven ↦ simp (uneven, execute)
        | inl even ↦ elim (Bool-cases means.makes_dir) [
          | inr nowhere ↦ simp (even, nowhere, execute)
          | inl somewhere ↦ elim (Option-cases loop.0) [
            | inr (v, early) ↦ simp (even, somewhere, same, early, execute)
            | inl complete ↦ elim (Result-cases (command a)) [
              | inl (v, refused) ↦ simp (even, somewhere, same, complete, refused, execute)
              | inr (argv, commanded) ↦ simp (
                even,
                somewhere,
                same,
                complete,
                commanded,
                execute,
                run_command-run argv loop.1
                    (agree argv loop.1.dir (command-IsAllowed a argv commanded)),
              )
            ]
          ]
        ]
      ]
