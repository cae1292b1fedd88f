-- ===== src/Db/Transaction/Attempts.antt =====
-- One attempt of `transaction`: it runs the body as a whole, or not at all.
use distcompile.Prelude.{
  ℕ, ◌≡◌, ◌⊎◌, refl, sym, ap, subst, ◌∙◌, inl, inr, Bool, true, false, none, some, Option-cases,
  Result, ok, err, Result-cases,
}
use distcompile.Db.Transaction.{
  DbError, Thrown, db_thrown, Engine, goes_again, retryable, commit_with, body, try_once,
}
use distcompile.Db.Transaction.Rounds.{
  IsConflict-retryable, goes_again-IsConflict, commit_with-err, commit_with-ok, body-err, body-ok,
  try_once-err, try_once-ok, undone,
}

-- What the code relies on in the server. `in_tx` is whether a transaction is open on the connections that
-- are leased or idle. BEGIN shows the tables, unless a transaction was open before; COMMIT writes what
-- the transaction made of them and ends it, or throws, and then it may have written them too (its
-- reply was lost), but not when it throws a conflict; ROLLBACK ends the transaction, and so does the loss
-- of its connection. Nothing else writes the tables.
pub record IsEngine {ℓ κ} {W : Type ℓ} {S : Type κ} (engine : Engine W) (tables view : W → S)
    (in_tx : W → Bool) : Type (ℓ ⊔ κ) where
  pub get_keeps : (w : W) → tables (engine.get w).1 ≡ tables w
  pub get_idle : (w : W) → in_tx w ≡ false → in_tx (engine.get w).1 ≡ false
  pub begin_keeps : (w : W) → tables (engine.begin_tx w).1 ≡ tables w
  pub begin_shows :
      (w : W)
      → in_tx w ≡ false
      → (engine.begin_tx w).0 ≡ none
      → view (engine.begin_tx w).1 ≡ tables w
  pub commit_writes :
      (w : W) → (engine.commit_tx w).0 ≡ none → tables (engine.commit_tx w).1 ≡ view w
  pub commit_ends : (w : W) → (engine.commit_tx w).0 ≡ none → in_tx (engine.commit_tx w).1 ≡ false
  pub commit_fails :
      (w : W) (e : DbError)
      → (engine.commit_tx w).0 ≡ some e
      → (tables (engine.commit_tx w).1 ≡ tables w)
        ⊎ ((retryable e ≡ false) × (tables (engine.commit_tx w).1 ≡ view w))
  pub rollback_keeps : (w : W) → tables (engine.rollback_tx w) ≡ tables w
  pub rollback_ends : (w : W) → in_tx (engine.rollback_tx w) ≡ false
  pub release_keeps : (w : W) → tables (engine.release w) ≡ tables w
  pub release_idle : (w : W) → in_tx w ≡ false → in_tx (engine.release w) ≡ false

-- The body, when it returns, does `act` to what the transaction sees.
pub record Performs {ℓ κ} {W : Type ℓ} {S : Type κ} {A : Type κ} (act : S → A × S)
    (tables view : W → S) (fn : W → Result Thrown A × W) : Type (ℓ ⊔ κ) where
  pub keeps : (w : W) → tables (fn w).1 ≡ tables w
  pub does : (w : W) (a : A) → (fn w).0 ≡ ok a → act (view w) ≡ (a, view (fn w).1)

module _ {ℓ κ} {W : Type ℓ} {S : Type κ} {A : Type κ} (engine : Engine W) (tables view : W → S)
    (in_tx : W → Bool) (act : S → A × S) (fn : W → Result Thrown A × W) where
  -- An error of COMMIT that is no conflict: the tables may have been written.
  abbrev pub IsDoubtful : Thrown → Type 0
  IsDoubtful t = (e : DbError) × (t ≡ db_thrown e) × (retryable e ≡ false)

  -- A result that left the tables as `act` does, or an error that left them alone, if it is not in doubt.
  abbrev pub IsAtomic : S → Result Thrown A × W → Type κ
  IsAtomic s (ok a, w) = act s ≡ (a, tables w)
  IsAtomic s (err t, w) = (tables w ≡ s) ⊎ (IsDoubtful t × (tables w ≡ (act s).1))

  module _ (laws : IsEngine engine tables view in_tx) (performs : Performs act tables view fn) where
    commit_with-IsAtomic :
        (s : S) (a : A) (w : W)
        → tables w ≡ s
        → act s ≡ (a, view w)
        → IsAtomic s (commit_with engine fn a w)
    commit_with-IsAtomic s a w same done = elim (Option-cases (engine.commit_tx w).0) [
      | inl good ↦
          subst (IsAtomic s) (sym (commit_with-ok engine fn a w good))
            (done ∙ ap (λ z. (a, z)) (sym (laws.commit_writes w good)))
      | inr (e, bad) ↦
          subst (IsAtomic s) (sym (commit_with-err engine fn a w e bad))
            (elim (laws.commit_fails w e bad) [
              | inl kept ↦ inl (kept ∙ same)
              | inr (doubt, wrote) ↦ inr ((e, refl, doubt), wrote ∙ ap (λ z. z.1) (sym done))
            ])
    ]

    body-IsAtomic : (s : S) (w : W) → tables w ≡ s → view w ≡ s → IsAtomic s (body engine fn w)
    body-IsAtomic s w same shown = elim (Result-cases (fn w).0) [
      | inl (t, bad) ↦
          subst (IsAtomic s) (sym (body-err engine fn w t bad)) (inl (performs.keeps w ∙ same))
      | inr (a, good) ↦ subst (IsAtomic s) (sym (body-ok engine fn w a good)) (
          commit_with-IsAtomic s a (fn w).1 (performs.keeps w ∙ same)
            (ap act (sym shown) ∙ performs.does w a good))
    ]

    try_once-IsAtomic :
        (s : S) (w : W) → tables w ≡ s → in_tx w ≡ false → IsAtomic s (try_once engine fn w)
    try_once-IsAtomic s w same idle =
        let kept = laws.begin_keeps w ∙ same in
        elim (Option-cases (engine.begin_tx w).0) [
          | inr (e, bad) ↦ subst (IsAtomic s) (sym (try_once-err engine fn w e bad)) (inl kept)
          | inl good ↦
              subst (IsAtomic s) (sym (try_once-ok engine fn w good))
                (body-IsAtomic s (engine.begin_tx w).1 kept (laws.begin_shows w idle good ∙ same))
        ]

    -- The same, by what the attempt returned.
    pub try_once-result :
        (s : S) (w : W) (r : Result Thrown A)
        → tables w ≡ s
        → in_tx w ≡ false
        → (try_once engine fn w).0 ≡ r
        → IsAtomic s (r, (try_once engine fn w).1)
    try_once-result s w r same idle h =
        subst (λ r. IsAtomic s (r, (try_once engine fn w).1)) h (try_once-IsAtomic s w same idle)

    -- A result that comes back with a connection that has no transaction open.
    commit_with-idle :
        (a b : A) (w : W)
        → (commit_with engine fn a w).0 ≡ ok b
        → in_tx (commit_with engine fn a w).1 ≡ false
    commit_with-idle a b w h = elim (Option-cases (engine.commit_tx w).0) [
      | inl good ↦
          subst (λ z. in_tx z.1 ≡ false) (sym (commit_with-ok engine fn a w good))
            (laws.commit_ends w good)
      | inr (e, bad) ↦ absurd (cc (ap (λ z. z.0) (commit_with-err engine fn a w e bad), h))
    ]

    pub try_once-idle :
        (w : W) (b : A) → (try_once engine fn w).0 ≡ ok b → in_tx (try_once engine fn w).1 ≡ false
    try_once-idle w b h = elim (Option-cases (engine.begin_tx w).0) [
      | inr (e, bad) ↦ absurd (cc (ap (λ z. z.0) (try_once-err engine fn w e bad), h))
      | inl good ↦
          let w1 = (engine.begin_tx w).1 in
          let begun = try_once-ok engine fn w good in
          elim (Result-cases (fn w1).0) [
            | inl (t, bad) ↦ absurd (cc (ap (λ z. z.0) (begun ∙ body-err engine fn w1 t bad), h))
            | inr (a, fine) ↦
                let whole = begun ∙ body-ok engine fn w1 a fine in
                subst (λ z. in_tx z.1 ≡ false) (sym whole)
                  (commit_with-idle a b (fn w1).1 (sym (ap (λ z. z.0) whole) ∙ h))
          ]
    ]

    -- An attempt that is made again left the tables alone.
    pub conflict-kept :
        (s : S) (t : Thrown) (attempt : ℕ) (w : W)
        → goes_again t attempt ≡ true
        → IsAtomic s (err t, w)
        → tables w ≡ s
    conflict-kept s t attempt w again (inl kept) = kept
    conflict-kept s t attempt w again (inr ((d, same, doubt), wrote)) =
        let (e, at, conflict, left) = goes_again-IsConflict t attempt again in
        let one : e ≡ d = cc (sym at ∙ same) in
        absurd (cc (IsConflict-retryable e conflict, doubt, one))

    pub undone-IsAtomic :
        (s : S) (t : Thrown) (w : W)
        → IsAtomic s (err t, w)
        → IsAtomic s (err t, engine.release (engine.rollback_tx w))
    undone-IsAtomic s t w h =
        let same = laws.release_keeps (engine.rollback_tx w) ∙ laws.rollback_keeps w in
        elim h [ inl kept ↦ inl (same ∙ kept) | inr (doubt, wrote) ↦ inr (doubt, same ∙ wrote) ]

    pub undone-idle : (w : W) → in_tx (undone engine fn w) ≡ false
    undone-idle w =
        let w1 = (try_once engine fn (engine.get w).1).1 in
        laws.release_idle (engine.rollback_tx w1) (laws.rollback_ends w1)
