-- ===== src/Examples/Submits.antt =====
-- submit of coordinator.cpp on one compilation and a program.
use distcompile.Cas.{valid_hash, all_hex}
use distcompile.Graph.{topo_order, scan_tasks, scan_deps, sources, relax, kahn}
use distcompile.Coordinator.Finish.Settled.{Settled, IsClosed}
use distcompile.Coordinator.Complete.Invariant.{nothing_owed}
use distcompile.Coordinator.Submit.Start.{submit_build-Settled}
use distcompile.Prelude.{
  ℕ, zero, suc, ◌≡◌, refl, Bool, true, none, List, [], ◌∷◌, Text, codes, Result, ok, err, text_eq,
}
use distcompile.Prelude.Int.{pos}
use distcompile.Coordinator.Rows.{active, ready, text_of, count_tasks}
use distcompile.Coordinator.Finish.{Tx, maybe_finish}
use distcompile.Coordinator.Submit.{
  TaskSpec, SubmitError, no_spec, no_draft, new_task, submit, visit, visit_all, known_deps,
  is_compile, read_specs, submit_build, key_draft, more_hits, settle, compile_keys, has_twin,
  has_edge, all_edges, edges_of, spec_at,
}
use distcompile.Coordinator.Submit.Inputs.{submit-HasInput}

abbrev stored : Text → Bool
stored h = text_eq h (codes "bb")

abbrev specs : List TaskSpec
specs =
    record no_spec { name = codes "obj/a.c.o"; key = codes "aa"; input = codes "bb" }
    ∷ record no_spec { id = pos 1; kind = 2; name = codes "x"; deps = pos 0 ∷ [] }
    ∷ []

abbrev submitted : Result SubmitError Tx
submitted =
    submit (λ s. s) stored (codes "gcc") specs (0 ∷ 1 ∷ []) (λ i. pos 1) (λ i. 0) (λ k. none)

abbrev pub nothing : Tx
nothing = record {
  build = record {
    toolchain = [];
    total = 0;
    state = active;
    task = λ i. new_task [] no_spec no_draft (pos 0) 0;
    edges = [];
  };
  cache = λ k. none;
}

abbrev pub rows : Result SubmitError Tx → Tx
rows (ok s) = s
rows (err e) = nothing

accepted : submitted ≡ ok (rows submitted)
unfolding submit visit_all visit known_deps key_draft more_hits settle compile_keys has_twin
    has_edge all_edges edges_of spec_at text_eq
accepted = refl

queued : ((rows submitted).build.task 0).state ≡ ready
unfolding submit visit_all visit known_deps key_draft more_hits settle compile_keys has_twin
    has_edge all_edges edges_of spec_at text_eq maybe_finish count_tasks
queued = refl

compiled : ((rows submitted).build.task 0).kind ≡ 0
unfolding submit visit_all visit known_deps key_draft more_hits settle compile_keys has_twin
    has_edge all_edges edges_of spec_at text_eq maybe_finish count_tasks
compiled = refl

submit-HasInput_example : stored (text_of ((rows submitted).build.task 0).input) ≡ true
submit-HasInput_example =
    submit-HasInput (λ s. s) stored (codes "gcc") specs (0 ∷ 1 ∷ []) (λ i. pos 1) (λ i. 0)
      (λ k. none) (rows submitted) 0 accepted queued compiled

-- The same build as a request, with whole hashes.
abbrev pub hash : ℕ → ℕ → Text
hash c zero = []
hash c (suc n) = c ∷ hash c n

abbrev pub stored_hash : Text → Bool
stored_hash h = text_eq h (hash b'b' 64)

abbrev pub request : List TaskSpec
request =
    record no_spec { name = codes "obj/a.c.o"; key = hash b'a' 64; input = hash b'b' 64 }
    ∷ record no_spec { id = pos 1; kind = 2; name = codes "x"; deps = pos 0 ∷ [] }
    ∷ []

abbrev pub built : Result SubmitError Tx
built = submit_build (λ s. s) stored_hash 2 (codes "gcc") request (λ k. none)

pub built-ok : built ≡ ok (rows built)
unfolding submit_build read_specs valid_hash all_hex topo_order scan_tasks scan_deps sources relax
    kahn submit visit_all visit known_deps key_draft more_hits settle compile_keys has_twin has_edge
    all_edges edges_of spec_at text_eq
built-ok = refl

pub leaves : (i : ℕ) → is_compile (spec_at request i) ≡ true → (spec_at request i).deps ≡ []
unfolding spec_at
leaves zero e = refl
leaves (suc zero) e = cc
leaves (suc (suc i)) e = refl

submit_build-Settled_example : Settled (rows built).build nothing_owed × IsClosed (rows built).build
submit_build-Settled_example =
    submit_build-Settled (λ s. s) stored_hash 2 (codes "gcc") request (λ k. none) (rows built)
      (λ k r e. cc) leaves built-ok
