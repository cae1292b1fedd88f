-- ===== src/Coordinator/Finish/Filled.antt =====
-- The outputs in the cache: no row has the empty text for its output.
use distcompile.Prelude.{
  ℕ, zero, suc, ◌+◌, ◌≡◌, refl, sym, ap, subst, ◌∙◌, inl, inr, false, Option, none, some, List, [],
  ◌∷◌, Text, ◌==◌, Bool-cases, Option-cases, is_empty, text_eq, arith,
}
use distcompile.Coordinator.Rows.{CacheRow, Cache, put_key}
use distcompile.Coordinator.Finish.{
  Tx, set_task, counted, count_down, use_hit, make_ready, maybe_finish, dependents, finished,
  task_key, ◌>>=◌,
}

abbrev pub IsFilled : Cache → Type 0
IsFilled cache = (k : Text) (r : CacheRow) → cache k ≡ some r → is_empty r.output ≡ false

pub put_key-IsFilled :
    (cache : Cache) (key : Text) (row : CacheRow)
    → is_empty row.output ≡ false
    → IsFilled cache
    → IsFilled (put_key cache key (some row))
put_key-IsFilled cache key row full f k r e = elim (Bool-cases (text_eq k key)) [
  | inl here ↦
      let written : some row ≡ some r = rw here at e in
      let same : row ≡ r = cc written in ap (λ z. is_empty z.output) (sym same) ∙ full
  | inr other ↦ f k r (rw other at e)
]

pub maybe_finish-cache : (s : Tx) → (maybe_finish s).cache ≡ s.cache
unfolding maybe_finish
maybe_finish-cache s = ground arith

-- A run that ends with such a cache, if it ends.
abbrev pub Fills : Option Tx → Type 0
Fills r = (s : Tx) → r ≡ some s → IsFilled s.cache

some-Fills : (s : Tx) → IsFilled s.cache → Fills (some s)
some-Fills s f s' e = let same : s ≡ s' = cc e in subst (λ z. IsFilled z.cache) same f

>>=-Fills :
    (r : Option Tx) (f : Tx → Option Tx)
    → Fills r
    → ((s : Tx) → IsFilled s.cache → Fills (f s))
    → Fills (r >>= f)
>>=-Fills none f h k s e = absurd (cc e)
>>=-Fills (some m) f h k s e = k m (h m refl) s e

count_down-Fills :
    (prepare : ℕ → Tx → Option Tx) (ts : List ℕ) (s : Tx)
    → ((t : ℕ) (s : Tx) → IsFilled s.cache → Fills (prepare t s))
    → IsFilled s.cache
    → Fills (count_down prepare ts s)
unfolding count_down
count_down-Fills prepare [] s each f = some-Fills s f
count_down-Fills prepare (t ∷ ts) s each f =
    let s' = set_task s t (counted (s.build.task t)) in
    elim (Bool-cases ((s.build.task t).pending_deps == 1)) [
      | inl last ↦
          rw (last, count_down)
            (>>=-Fills (prepare t s') (count_down prepare ts) (each t s' f)
              (λ m g. count_down-Fills prepare ts m each g))
      | inr more ↦ rw (more, count_down) (count_down-Fills prepare ts s' each f)
    ]

make_ready-Fills :
    (sha256 : Text → Text) (finish : ℕ → Tx → Option Tx) (t : ℕ) (s : Tx)
    → ((t : ℕ) (s : Tx) → IsFilled s.cache → Fills (finish t s))
    → IsFilled s.cache
    → Fills (make_ready sha256 finish t s)
unfolding make_ready
make_ready-Fills sha256 finish t s each f =
    let key = task_key sha256 s.build t in
    elim (Option-cases (s.cache key)) [
      | inl miss ↦ rw (miss, make_ready) (some-Fills _ f)
      | inr (hit, e) ↦
          rw (e, make_ready)
            (each t (use_hit t key hit s)
              (put_key-IsFilled s.cache key (record hit { hits = hit.hits + 1 }) (f key hit e) f))
    ]

pub finished-Fills :
    (sha256 : Text → Text) (fuel : ℕ) (x : ℕ) (s : Tx)
    → IsFilled s.cache
    → Fills (finished sha256 fuel x s)
unfolding finished
finished-Fills sha256 zero x s f = λ s' e. absurd (cc e)
finished-Fills sha256 (suc fuel) x s f = elim (Bool-cases (is_empty (dependents s.build x))) [
  | inl nobody ↦
      rw (nobody, finished)
        (some-Fills (maybe_finish s) (subst IsFilled (sym (maybe_finish-cache s)) f))
  | inr some_wait ↦
      rw (some_wait, finished)
        (count_down-Fills (make_ready sha256 (finished sha256 fuel)) (dependents s.build x) s
          (λ t m g.
            make_ready-Fills sha256 (finished sha256 fuel) t m
              (λ u n h. finished-Fills sha256 fuel u n h) g)
          f)
]
