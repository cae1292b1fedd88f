-- ===== src/Db/Transaction/Atomic.antt =====
-- `transaction` runs its body as a whole, or not at all, and again only after a conflict.
use distcompile.Prelude.{
  ℕ, zero, suc, ◌+◌, ◌≤◌, ◌<◌, ◌≡◌, ◌⊎◌, refl, sym, ap, subst, ◌∙◌, inl, inr, Bool, false, Option,
  none, some, Option-cases, arith, Result, ok, err, Result-cases, Bool-cases,
}
use distcompile.Db.Transaction.{
  DbError, Thrown, db_thrown, Engine, goes_again, try_once, tx_loop, transaction,
}
use distcompile.Db.Transaction.Rounds.{
  IsConflict, goes_again-IsConflict, IsFinal, goes_again-stops, tx_loop-no_lease, tx_loop-done,
  tx_loop-thrown, tx_loop-again, undone,
}
use distcompile.Db.Transaction.Attempts.{
  IsEngine, Performs, IsAtomic, try_once-result, try_once-idle, conflict-kept, undone-IsAtomic,
  undone-idle,
}

module _ {ℓ κ} {W : Type ℓ} {S : Type κ} {A : Type κ} (engine : Engine W) (tables view : W → S)
    (in_tx : W → Bool) (act : S → A × S) (fn : W → Result Thrown A × W) where
  -- The state after that many attempts that were undone, the lease of the next attempt, and what it comes to.
  abbrev pub after : ℕ → W → W
  after zero w = w
  after (suc n) w = after n (undone engine fn w)

  abbrev pub attempt_at : ℕ → W → Result Thrown A
  attempt_at n w = (try_once engine fn (engine.get (after n w)).1).0

  -- How a transaction on the tables `s` ends, `attempt` attempts being over.
  pub record Ended (s : S) (attempt : ℕ) (w : W) (out : Option (Result Thrown A × W))
      : Type (ℓ ⊔ κ) where
    pub result : Result Thrown A × W
    pub ends : out ≡ some result
    pub atomic : IsAtomic engine tables view in_tx act fn s result
    pub idle : in_tx result.1 ≡ false
    pub retries : ℕ
    pub few : attempt + retries ≤ 5
    pub retried :
        (i : ℕ) → i < retries → (e : DbError) × IsConflict e × (attempt_at i w ≡ err (db_thrown e))
    pub last :
        ((t : Thrown) × ((engine.get (after retries w)).0 ≡ some t) × (result.0 ≡ err t))
        ⊎ (attempt_at retries w ≡ result.0)
    pub stops :
        (t : Thrown)
        → attempt_at retries w ≡ err t
        → ((engine.get (after retries w)).0 ≡ none)
        → IsFinal t ⊎ (attempt + retries ≡ 5)

  module _ (laws : IsEngine engine tables view in_tx) (performs : Performs act tables view fn) where
    -- One more attempt before those that are left.
    Ended-again :
        (s : S) (attempt : ℕ) (w : W) (e : DbError) (out : Option (Result Thrown A × W))
        → IsConflict e
        → attempt_at 0 w ≡ err (db_thrown e)
        → Ended s (suc attempt) (undone engine fn w) out
        → Ended s attempt w out
    Ended-again s attempt w e out conflict threw d = record {
      result = d.result;
      ends = d.ends;
      atomic = d.atomic;
      idle = d.idle;
      retries = suc d.retries;
      few = omega (arith, d.few);
      retried = λ i below. first_or i below;
      last = d.last;
      stops = λ t h leased. elim (d.stops t h leased) [
        | inl final ↦ inl final
        | inr all ↦ inr (omega (arith, all))
      ];
    }
      where
        first_or :
            (i : ℕ)
            → i < suc d.retries
            → (e : DbError) × IsConflict e × (attempt_at i w ≡ err (db_thrown e))
        first_or zero below = (e, conflict, threw)
        first_or (suc i) below = d.retried i (omega (arith, below))

    -- The last round: the lease is refused, the attempt returns, or it throws for good.
    no_lease-Ended :
        (k attempt : ℕ) (s : S) (w : W) (t : Thrown)
        → attempt + k ≡ 5
        → tables w ≡ s
        → in_tx w ≡ false
        → (engine.get w).0 ≡ some t
        → Ended s attempt w (tx_loop engine fn (suc k) attempt w)
    no_lease-Ended k attempt s w t left same idle refused = record {
      result = (err t, (engine.get w).1);
      ends = tx_loop-no_lease engine fn k attempt w t refused;
      atomic = inl (laws.get_keeps w ∙ same);
      idle = laws.get_idle w idle;
      retries = 0;
      few = omega (arith, left);
      retried = λ i below. absurd (omega (arith, below));
      last = inl (t, refused, refl);
      stops = λ t h leased. absurd (cc (refused, leased));
    }

    done-Ended :
        (k attempt : ℕ) (s : S) (w : W) (a : A)
        → attempt + k ≡ 5
        → tables w ≡ s
        → in_tx w ≡ false
        → (engine.get w).0 ≡ none
        → (try_once engine fn (engine.get w).1).0 ≡ ok a
        → Ended s attempt w (tx_loop engine fn (suc k) attempt w)
    done-Ended k attempt s w a left same idle leased good =
        let w0 = (engine.get w).1 in
        let w1 = (try_once engine fn w0).1 in
        record {
          result = (ok a, engine.release w1);
          ends = tx_loop-done engine fn k attempt w a leased good;
          atomic =
              try_once-result engine tables view in_tx act fn laws performs s w0 (ok a)
                (laws.get_keeps w ∙ same) (laws.get_idle w idle) good
              ∙ ap (λ z. (a, z)) (sym (laws.release_keeps w1));
          idle =
              laws.release_idle w1
                (try_once-idle engine tables view in_tx act fn laws performs w0 a good);
          retries = 0;
          few = omega (arith, left);
          retried = λ i below. absurd (omega (arith, below));
          last = inr good;
          stops = λ t h got. absurd (cc (good, h));
        }

    thrown-Ended :
        (k attempt : ℕ) (s : S) (w : W) (t : Thrown)
        → attempt + k ≡ 5
        → tables w ≡ s
        → in_tx w ≡ false
        → (engine.get w).0 ≡ none
        → (try_once engine fn (engine.get w).1).0 ≡ err t
        → goes_again t attempt ≡ false
        → Ended s attempt w (tx_loop engine fn (suc k) attempt w)
    thrown-Ended k attempt s w t left same idle leased bad final =
        let w0 = (engine.get w).1 in
        let w1 = (try_once engine fn w0).1 in
        record {
          result = (err t, undone engine fn w);
          ends = tx_loop-thrown engine fn k attempt w t leased bad final;
          atomic = undone-IsAtomic engine tables view in_tx act fn laws performs s t w1 (
              try_once-result engine tables view in_tx act fn laws performs s w0 (err t)
                (laws.get_keeps w ∙ same) (laws.get_idle w idle) bad);
          idle = undone-idle engine tables view in_tx act fn laws performs w;
          retries = 0;
          few = omega (arith, left);
          retried = λ i below. absurd (omega (arith, below));
          last = inr bad;
          stops = λ u h got.
              let one : t ≡ u = cc (sym bad ∙ h) in
              subst (λ v. IsFinal v ⊎ (attempt + 0 ≡ 5)) one
                (elim (goes_again-stops t attempt final) [
                  | inl given ↦ inl given
                  | inr all ↦ inr (omega (arith, all, left))
                ]);
        }

    -- A round, where `rest` is what follows when it is not the last one.
    round-Ended :
        (k attempt : ℕ) (s : S) (w : W)
        → attempt + k ≡ 5
        → tables w ≡ s
        → in_tx w ≡ false
        → (attempt < 5
            → tables (undone engine fn w) ≡ s
            → Ended s
                (suc attempt)
                (undone engine fn w)
                (tx_loop engine fn k (suc attempt) (undone engine fn w)))
        → Ended s attempt w (tx_loop engine fn (suc k) attempt w)
    round-Ended k attempt s w left same idle rest = elim (Option-cases (engine.get w).0) [
      | inr (t, refused) ↦ no_lease-Ended k attempt s w t left same idle refused
      | inl leased ↦ elim (Result-cases (try_once engine fn (engine.get w).1).0) [
        | inr (a, good) ↦ done-Ended k attempt s w a left same idle leased good
        | inl (t, bad) ↦ elim (Bool-cases (goes_again t attempt)) [
          | inr final ↦ thrown-Ended k attempt s w t left same idle leased bad final
          | inl again ↦
              let (e, at, conflict, few) = goes_again-IsConflict t attempt again in
              let w1 = (try_once engine fn (engine.get w).1).1 in
              let kept =
                laws.release_keeps (engine.rollback_tx w1)
                ∙ laws.rollback_keeps w1
                ∙ conflict-kept engine tables view in_tx act fn laws performs s t attempt w1 again (
                    try_once-result engine tables view in_tx act fn laws performs s (engine.get w).1
                      (err t) (laws.get_keeps w ∙ same) (laws.get_idle w idle) bad) in
              subst (Ended s attempt w)
                (sym (tx_loop-again engine fn k attempt w t leased bad again))
                (Ended-again s attempt w e _ conflict (bad ∙ ap err at) (rest few kept))
        ]
      ]
    ]

    tx_loop-Ended :
        (k attempt : ℕ) (s : S) (w : W)
        → attempt + k ≡ 5
        → tables w ≡ s
        → in_tx w ≡ false
        → Ended s attempt w (tx_loop engine fn (suc k) attempt w)
    tx_loop-Ended zero attempt s w left same idle =
        round-Ended 0 attempt s w left same idle (λ few kept. absurd (omega (arith, few, left)))
    tx_loop-Ended (suc k) attempt s w left same idle =
        round-Ended (suc k) attempt s w left same idle (λ few kept.
          tx_loop-Ended k (suc attempt) s (undone engine fn w) (omega (arith, left)) kept
            (undone-idle engine tables view in_tx act fn laws performs w))

-- A transaction ends after six attempts at most, from a state in which no transaction is open, and over a
-- server as in `IsEngine`, whose tables nothing else writes meanwhile, with a body that, when it
-- returns, does `act` to the tables it sees. If it returns a result, the tables went through `act`
-- once, and the result is that of `act`. If it throws, the tables are as before, or COMMIT threw
-- something else than a conflict, such as a lost connection, and they went through `act` once. Every
-- attempt but the last one threw a conflict (40P01 or 40001); the last one, if it threw, threw
-- something else or was the sixth; and what it came to is the result, unless its connection was
-- refused. The connection goes back with no transaction open.
pub transaction-Ended {ℓ κ} :
    {W : Type ℓ} {S : Type κ} {A : Type κ} (engine : Engine W) (tables view : W → S)
    (in_tx : W → Bool) (act : S → A × S) (fn : W → Result Thrown A × W) (w : W)
    → IsEngine engine tables view in_tx
    → Performs act tables view fn
    → in_tx w ≡ false
    → Ended engine tables view in_tx act fn (tables w) 0 w (transaction engine fn w)
unfolding transaction
transaction-Ended engine tables view in_tx act fn w laws performs idle =
    tx_loop-Ended engine tables view in_tx act fn laws performs 5 0 (tables w) w (omega arith) refl
      idle
