-- ===== src/Coordinator/Submit/Inputs.antt =====
-- Which tasks of a submitted build are queued.
use distcompile.Prelude.{
  ok-injective, update, ℕ, ◌≡◌, refl, sym, ap, ◌∙◌, subst, inl, inr, Bool, true, Option, List, [],
  ◌∷◌, Text, arith, ◌==◌, is_empty, ok, >>=-eq-ok, Bool-cases, Option-cases,
}
use distcompile.Prelude.Int.{ℤ}
use distcompile.Coordinator.Rows.{ready, Cache, text_of}
use distcompile.Coordinator.Finish.{Tx}
use distcompile.Coordinator.Finish.Settled.{maybe_finish-rows}
use distcompile.Coordinator.Submit.Start.{submit-rows}
use distcompile.Coordinator.Submit.{
  new_build, TaskSpec, Draft, Drafts, is_compile, known_deps, key_draft, more_hits, settle, visit,
  visit_all, submit, spec_at, null_if_empty,
}

-- A task that is queued has its input in the blob store, if it is a compilation.
abbrev HasInput : (Text → Bool) → TaskSpec → Draft → Type 0
HasInput blob ts d = d.state ≡ ready → is_compile ts ≡ true → blob ts.input ≡ true

settle-HasInput :
    (blob : Text → Bool) (ts : TaskSpec) (d r : Draft) (hit : Option Text)
    → settle blob ts d hit ≡ ok r
    → HasInput blob ts r
unfolding settle
settle-HasInput blob ts d r hit e q c = elim (Bool-cases (blob ts.input)) [
  | inl there ↦ there
  | inr missing ↦ elim (Bool-cases (is_empty d.key)) [
    | inl e1 ↦ absurd (ground (arith, e, q, c, missing, e1))
    | inr e1 ↦ elim (Option-cases hit) [
      | inl e2 ↦ absurd (ground (arith, e, q, c, missing, e1, e2))
      | inr (o, e2) ↦ absurd (ground (arith, e, q, c, missing, e1, e2))
    ]
  ]
]

module _ (sha256 : Text → Text) (toolchain : Text) (spec : ℕ → TaskSpec) (blob : Text → Bool) where
  visit-HasInput :
      (cache : Cache) (id : ℕ) (s s' : Drafts)
      → visit sha256 toolchain spec blob cache id s ≡ ok s'
      → ((i : ℕ) → HasInput blob (spec i) (s.row i))
      → (i : ℕ) → HasInput blob (spec i) (s'.row i)
  unfolding visit
  visit-HasInput cache id s s' e h i =
      let ts = spec id in
      let d = key_draft sha256 toolchain spec ts (known_deps spec s.row ts.deps) in
      let hits = more_hits cache ts d s.hits in
      let (r, settled, same) = >>=-eq-ok (settle blob ts d (hits d.key)) _ e in
      let good = settle-HasInput blob ts d r (hits d.key) settled in
      elim (Bool-cases (i == id)) [
        | inl at ↦
            let now : update s.row id r i ≡ r = rw (at) in
            let here : r ≡ s'.row i = sym now ∙ ap (λ z. z.row i) (ok-injective same) in
            let same_id : id ≡ i = ground (arith, at) in
            subst (λ x. HasInput blob (spec i) x) here
              (subst (λ j. HasInput blob (spec j) r) same_id good)
        | inr away ↦
            let now : update s.row id r i ≡ s.row i = rw (away) in
            subst (λ x. HasInput blob (spec i) x) (sym now ∙ ap (λ z. z.row i) (ok-injective same))
              (h i)
      ]

  visit_all-HasInput :
      (cache : Cache) (order : List ℕ) (s s' : Drafts)
      → visit_all sha256 toolchain spec blob cache order s ≡ ok s'
      → ((i : ℕ) → HasInput blob (spec i) (s.row i))
      → (i : ℕ) → HasInput blob (spec i) (s'.row i)
  unfolding visit_all
  visit_all-HasInput cache [] s s' e h i =
      subst (λ z. HasInput blob (spec i) (z.row i)) (ok-injective e) (h i)
  visit_all-HasInput cache (id ∷ order) s s' e h i =
      let (next, first, rest) = >>=-eq-ok (visit sha256 toolchain spec blob cache id s) _ e in
      visit_all-HasInput cache order next s' rest (visit-HasInput cache id s next first h) i

text_of_null : (s : Text) → text_of (null_if_empty s) ≡ s
text_of_null [] = refl
text_of_null (c ∷ s) = refl

-- When `submit` accepts a build, every compilation that it queues has its input in the blob store.
pub submit-HasInput :
    (sha256 : Text → Text) (blob : Text → Bool) (toolchain : Text) (specs : List TaskSpec)
    (order : List ℕ) (rank : ℕ → ℤ) (part : ℕ → ℕ) (cache : Cache) (s : Tx) (i : ℕ)
    → submit sha256 blob toolchain specs order rank part cache ≡ ok s
    → (s.build.task i).state ≡ ready
    → (s.build.task i).kind ≡ 0
    → blob (text_of (s.build.task i).input) ≡ true
submit-HasInput sha256 blob toolchain specs order rank part cache s i e q k =
    let (drafts, visited, same) =
      submit-rows sha256 blob toolchain specs order rank part cache s e in
    let built = new_build toolchain specs rank part cache drafts.row in
    let ts = spec_at specs i in
    let row : s.build.task i ≡ built.build.task i =
      ap (λ z. z.build.task i) same ∙ ap (λ f. f i) (maybe_finish-rows built).2 in
    let state : (drafts.row i).state ≡ ready = sym (ap (λ x. x.state) row) ∙ q in
    let kind : ts.kind ≡ 0 = sym (ap (λ x. x.kind) row) ∙ k in
    ap (λ x. blob (text_of x.input)) row
    ∙ ap blob (text_of_null ts.input)
    ∙ visit_all-HasInput sha256 toolchain (spec_at specs) blob cache order _ drafts visited
        (λ j waits. absurd (cc)) i state (ground (arith, kind))
