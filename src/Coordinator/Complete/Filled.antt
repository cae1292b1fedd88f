-- ===== src/Coordinator/Complete/Filled.antt =====
-- The outputs in the cache through a completion.
use distcompile.Prelude.{
  ℕ, suc, ◌≡◌, refl, sym, subst, inl, inr, Bool, true, false, not, ◌&&◌, Option, none, some, [],
  ◌∷◌, Text, codes, arith, ltb, if◌then◌else◌, Option-cases, is_empty,
}
use distcompile.Coordinator.Rows.{Cache, is_open, is_failed, text_of}
use distcompile.Coordinator.Finish.{Tx, set_task, maybe_finish}
use distcompile.Coordinator.Finish.Filled.{
  IsFilled, Fills, put_key-IsFilled, maybe_finish-cache, finished-Fills,
}
use distcompile.Coordinator.Complete.{
  TaskResult, Site, retry_copy, cache_put, retry_row, accept, complete_done, complete_retry,
  complete_failed, complete_tx, complete_task,
}

cache_put-IsFilled :
    (key output : Text) (size : ℕ) (cache : Cache)
    → is_empty output ≡ false
    → IsFilled cache
    → IsFilled (cache_put key output size cache)
unfolding cache_put
cache_put-IsFilled key output size cache full f = elim (Option-cases (cache key)) [
  | inr (row, e) ↦ rw (e, cache_put) f
  | inl e ↦
      rw (e, cache_put)
        (put_key-IsFilled cache key (record { output = output; size = size; hits = 0 }) full f)
]

-- A completion that ends with such a cache, if it ends.
abbrev FillsBoth : Option (Tx × Bool) → Type 0
FillsBoth r = (s : Tx) (accepted : Bool) → r ≡ some (s, accepted) → IsFilled s.cache

both-Fills : (s : Tx) (b : Bool) → IsFilled s.cache → FillsBoth (some (s, b))
both-Fills s b f s' b' e = let same : s ≡ s' = cc e in subst (λ z. IsFilled z.cache) same f

looked_at-Fills : (s : Tx) (b : Bool) → IsFilled s.cache → FillsBoth (some (maybe_finish s, b))
looked_at-Fills s b f =
    both-Fills (maybe_finish s) b (subst IsFilled (sym (maybe_finish-cache s)) f)

one_of :
    (a b : Bool) {x y z : Option (Tx × Bool)}
    → (a ≡ true → FillsBoth x)
    → FillsBoth y
    → FillsBoth z
    → FillsBoth (if a then x else if b then y else z)
one_of true b h k l = h refl
one_of false true h k l = k
one_of false false h k l = l

by_loss :
    (lost : Bool) (x y : Option (Tx × Bool))
    → (lost ≡ true → FillsBoth x)
    → (lost ≡ false → FillsBoth y)
    → FillsBoth (if lost then x else y)
by_loss true x y h k = h refl
by_loss false x y h k = k refl

module _ (site : Site) (r : TaskResult) (s : Tx) (f : IsFilled s.cache) where
  accept-Fills : (o : Option Tx) → Fills o → FillsBoth (accept site r s o)
  accept-Fills none h = λ s' b e. absurd (cc e)
  accept-Fills (some m) h = both-Fills m true (h m refl)

  guarded-Fills :
      (test : Bool) (o : Option (Tx × Bool))
      → FillsBoth o
      → FillsBoth (elim test [ true ↦ o | false ↦ some (s, false) ])
  guarded-Fills true o h = h
  guarded-Fills false o h = both-Fills s false f

  complete_done-Fills : is_empty r.output ≡ false → FillsBoth (complete_done site r s)
  unfolding complete_done
  complete_done-Fills full =
      guarded-Fills (ltb r.task s.build.total && is_open (s.build.task r.task).state) _ (
        accept-Fills _ (
          finished-Fills site.sha256 (suc s.build.total) r.task _ (
            cache_put-IsFilled (text_of (s.build.task r.task).key) r.output (site.size_of r.output)
              s.cache full f)))

  branch-Fills :
      (test : Bool) (m : Tx)
      → IsFilled m.cache
      → FillsBoth (some (if test then maybe_finish m else m, true))
  branch-Fills true m h = looked_at-Fills m true h
  branch-Fills false m h = both-Fills m true h

  complete_retry-Fills : FillsBoth (complete_retry site r s)
  unfolding complete_retry
  complete_retry-Fills =
      let row = retry_row site.max_attempts site.now r.log (s.build.task r.task) in
      guarded-Fills _ _ (branch-Fills (is_failed row.state) (set_task s r.task row) f)

  complete_failed-Fills : FillsBoth (complete_failed site r s)
  unfolding complete_failed
  complete_failed-Fills = guarded-Fills _ _ (looked_at-Fills _ true f)

  complete_tx-Fills : (r.ok ≡ true → is_empty r.output ≡ false) → FillsBoth (complete_tx site r s)
  unfolding complete_tx
  complete_tx-Fills full =
      one_of r.ok r.retryable (λ good. complete_done-Fills (full good)) complete_retry-Fills
        complete_failed-Fills

has-full :
    (site : Site) (output : Text)
    → site.has [] ≡ false
    → site.has output ≡ true
    → is_empty output ≡ false
has-full site [] empty h = absurd (cc (empty, h))
has-full site (c ∷ output) empty h = refl

-- A completion keeps the cache free of empty outputs, as the blob store has no blob under the empty
-- name.
pub complete_task-Fills :
    (site : Site) (r : TaskResult) (s s' : Tx) (accepted : Bool)
    → site.has [] ≡ false
    → IsFilled s.cache
    → complete_task site r s ≡ some (s', accepted)
    → IsFilled s'.cache
unfolding complete_task retry_copy
complete_task-Fills site r s s' accepted empty f =
    by_loss (r.ok && not (site.has r.output)) _ _
      (λ lost.
        complete_tx-Fills site (retry_copy r (codes "output blob missing")) s f
          (λ e. absurd (cc e)))
      (λ there.
        complete_tx-Fills site r s f
          (λ good. has-full site r.output empty (ground (arith, good, there))))
      s' accepted
