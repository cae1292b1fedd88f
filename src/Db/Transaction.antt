-- ===== src/Db/Transaction.antt =====
-- db.h: `DbError` and `transaction`. The connection, the pool and the body of the transaction are
-- parameters: operations on a state `W` of the client and the server.
pub mod Rounds
pub mod Attempts
pub mod Atomic
use distcompile.Prelude.{
  ℕ, zero, suc, Bool, true, false, not, ◌&&◌, ◌||◌, Option, none, some, Text, codes, leb, Result,
  ok, err, if◌then◌else◌, text_eq,
}

pub record DbError : Type 0 where
  pub message : Text
  pub sqlstate : Text

-- deadlock_detected and serialization_failure
unfoldable pub retryable : DbError → Bool
retryable e = text_eq e.sqlstate (codes "40P01") || text_eq e.sqlstate (codes "40001")

-- What is thrown: a DbError, or something else.
pub data Thrown : Type 0 where
  db_thrown : DbError → Thrown
  other_thrown : Thrown

-- `get` and `release` of a lease of the pool, and the statements BEGIN, COMMIT and ROLLBACK, with what
-- they throw; the errors of ROLLBACK are swallowed.
pub record Engine {ℓ} (W : Type ℓ) : Type ℓ where
  pub get : W → Option Thrown × W
  pub begin_tx : W → Option DbError × W
  pub commit_tx : W → Option DbError × W
  pub rollback_tx : W → W
  pub release : W → W

-- Whether the `catch` goes round the loop again.
abbrev pub goes_again : Thrown → ℕ → Bool
goes_again other_thrown attempt = false
goes_again (db_thrown e) attempt = not (not (retryable e) || leb 5 attempt)

module _ {ℓ κ} {W : Type ℓ} {A : Type κ} (engine : Engine W) (fn : W → Result Thrown A × W) where
  abbrev pub commit_with : A → W → Result Thrown A × W
  commit_with a w =
      let (c, w') = engine.commit_tx w in
      elim c [ some e ↦ (err (db_thrown e), w') | none ↦ (ok a, w') ]

  abbrev pub body : W → Result Thrown A × W
  body w = let (r, w') = fn w in elim r [ err t ↦ (err t, w') | ok a ↦ commit_with a w' ]

  -- The `try` block.
  unfoldable pub try_once : W → Result Thrown A × W
  try_once w =
      let (b, w') = engine.begin_tx w in
      elim b [ some e ↦ (err (db_thrown e), w') | none ↦ body w' ]

  -- The loop, on fuel; the lease ends behind the handlers.
  unfoldable pub tx_loop : ℕ → ℕ → W → Option (Result Thrown A × W)
  unfolding try_once retryable
  tx_loop zero attempt w = none
  tx_loop (suc fuel) attempt w =
      let (g, w0) = engine.get w in
      elim g [
        | some t ↦ some (err t, w0)
        | none ↦
            let (r, w1) = try_once w0 in
            elim r [
              | ok a ↦ some (ok a, engine.release w1)
              | err t ↦ elim (goes_again t attempt) [
                | true ↦ tx_loop fuel (suc attempt) (engine.release (engine.rollback_tx w1))
                | false ↦ some (err t, engine.release (engine.rollback_tx w1))
              ]
            ]
      ]

  -- Six rounds are enough.
  unfoldable pub transaction : W → Option (Result Thrown A × W)
  unfolding tx_loop
  transaction w = tx_loop 6 0 w
