-- ===== src/Db/Transaction/Rounds.antt =====
-- The attempts of `transaction`: what they come to on each branch, and when there is another one.
use distcompile.Prelude.{
  ℕ, suc, ◌≤◌, ◌<◌, ◌≡◌, refl, ◌⊎◌, inl, inr, Bool, true, false, none, some, Result, ok, err, arith,
  codes, text_eq, text_eq→≡, text_eq_refl, ◌||◌, Bool-cases,
}
use distcompile.Db.Transaction.{
  DbError, Thrown, db_thrown, other_thrown, Engine, goes_again, retryable, commit_with, body,
  try_once, tx_loop,
}

-- The errors after which PostgreSQL wants a transaction to be run again.
abbrev pub IsConflict : DbError → Type 0
IsConflict e = (e.sqlstate ≡ codes "40P01") ⊎ (e.sqlstate ≡ codes "40001")

retryable-IsConflict : (e : DbError) → retryable e ≡ true → IsConflict e
unfolding retryable
retryable-IsConflict e h = elim (Bool-cases (text_eq e.sqlstate (codes "40P01"))) [
  | inl deadlock ↦ inl (text_eq→≡ e.sqlstate (codes "40P01") deadlock)
  | inr other ↦ inr (text_eq→≡ e.sqlstate (codes "40001") (rw (other, retryable) at h))
]

pub IsConflict-retryable : (e : DbError) → IsConflict e → retryable e ≡ true
unfolding retryable
IsConflict-retryable e (inl same) = rw (same, text_eq_refl (codes "40P01")) refl
IsConflict-retryable e (inr same) = rw (same) (or_true (text_eq (codes "40001") (codes "40P01")))
  where
    or_true : (b : Bool) → b || text_eq (codes "40001") (codes "40001") ≡ true
    or_true true = refl
    or_true false = text_eq_refl (codes "40001")

pub goes_again-IsConflict :
    (t : Thrown) (attempt : ℕ)
    → goes_again t attempt ≡ true
    → (e : DbError) × (t ≡ db_thrown e) × IsConflict e × (attempt < 5)
goes_again-IsConflict other_thrown attempt h = absurd (cc h)
goes_again-IsConflict (db_thrown e) attempt h =
    (e, refl, retryable-IsConflict e (ground arith), ground arith)

-- What is thrown to the caller though attempts are left.
abbrev pub IsFinal : Thrown → Type 0
IsFinal t = (e : DbError) → t ≡ db_thrown e → IsConflict e → ⊥

pub goes_again-stops :
    (t : Thrown) (attempt : ℕ) → goes_again t attempt ≡ false → IsFinal t ⊎ (5 ≤ attempt)
goes_again-stops other_thrown attempt h = inl (λ e same. absurd (cc same))
goes_again-stops (db_thrown d) attempt h = elim (Bool-cases (retryable d)) [
  | inl again ↦ inr (ground (arith, again))
  | inr final ↦ inl (λ e same conflict.
      let at : d ≡ e = cc same in absurd (cc (IsConflict-retryable e conflict, final, at)))
]

-- The branches of an attempt and of the loop as equations.
module _ {ℓ κ} {W : Type ℓ} {A : Type κ} (engine : Engine W) (fn : W → Result Thrown A × W) where
  pub commit_with-err :
      (a : A) (w : W) (e : DbError)
      → (engine.commit_tx w).0 ≡ some e
      → commit_with engine fn a w ≡ (err (db_thrown e), (engine.commit_tx w).1)
  commit_with-err a w e h = rw (h, commit_with) refl

  pub commit_with-ok :
      (a : A) (w : W)
      → (engine.commit_tx w).0 ≡ none
      → commit_with engine fn a w ≡ (ok a, (engine.commit_tx w).1)
  commit_with-ok a w h = rw (h, commit_with) refl

  pub body-err : (w : W) (t : Thrown) → (fn w).0 ≡ err t → body engine fn w ≡ (err t, (fn w).1)
  body-err w t h = rw (h, body) refl

  pub body-ok :
      (w : W) (a : A) → (fn w).0 ≡ ok a → body engine fn w ≡ commit_with engine fn a (fn w).1
  body-ok w a h = rw (h, body) refl

  pub try_once-err :
      (w : W) (e : DbError)
      → (engine.begin_tx w).0 ≡ some e
      → try_once engine fn w ≡ (err (db_thrown e), (engine.begin_tx w).1)
  unfolding try_once
  try_once-err w e h = rw (h, try_once) refl

  pub try_once-ok :
      (w : W)
      → (engine.begin_tx w).0 ≡ none
      → try_once engine fn w ≡ body engine fn (engine.begin_tx w).1
  unfolding try_once
  try_once-ok w h = rw (h, try_once) refl

  pub tx_loop-no_lease :
      (k attempt : ℕ) (w : W) (t : Thrown)
      → (engine.get w).0 ≡ some t
      → tx_loop engine fn (suc k) attempt w ≡ some (err t, (engine.get w).1)
  unfolding tx_loop
  tx_loop-no_lease k attempt w t h = rw (h, tx_loop) refl

  pub tx_loop-done :
      (k attempt : ℕ) (w : W) (a : A)
      → (engine.get w).0 ≡ none
      → (try_once engine fn (engine.get w).1).0 ≡ ok a
      → tx_loop engine fn (suc k) attempt w
        ≡ some (ok a, engine.release (try_once engine fn (engine.get w).1).1)
  unfolding tx_loop
  tx_loop-done k attempt w a h g = rw (h, g, tx_loop) refl

  -- The state behind an attempt that threw: rolled back, with the lease given back.
  abbrev pub undone : W → W
  undone w = engine.release (engine.rollback_tx (try_once engine fn (engine.get w).1).1)

  pub tx_loop-thrown :
      (k attempt : ℕ) (w : W) (t : Thrown)
      → (engine.get w).0 ≡ none
      → (try_once engine fn (engine.get w).1).0 ≡ err t
      → goes_again t attempt ≡ false
      → tx_loop engine fn (suc k) attempt w ≡ some (err t, undone w)
  unfolding tx_loop
  tx_loop-thrown k attempt w t h g n = rw (h, g, n, tx_loop) refl

  pub tx_loop-again :
      (k attempt : ℕ) (w : W) (t : Thrown)
      → (engine.get w).0 ≡ none
      → (try_once engine fn (engine.get w).1).0 ≡ err t
      → goes_again t attempt ≡ true
      → tx_loop engine fn (suc k) attempt w ≡ tx_loop engine fn k (suc attempt) (undone w)
  unfolding tx_loop
  tx_loop-again k attempt w t h g n = rw (h, g, n, tx_loop) refl
