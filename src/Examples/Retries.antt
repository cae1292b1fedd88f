-- ===== src/Examples/Retries.antt =====
-- rpc.h and db.h on a network that loses two replies, and on a server that aborts a transaction once.
use distcompile.Prelude.{
  ℕ, zero, suc, ◌+◌, ◌≡◌, refl, ◌⊎◌, inr, Bool, true, false, none, some, [], ◌∷◌, codes, Result, ok,
  err, arith, length,
}
use distcompile.Coordinator.Rows.{running}
use distcompile.Coordinator.Finish.{Tx}
use distcompile.Coordinator.Complete.Delivery.{completed, with_retry-complete_task}
use distcompile.Rpc.{Status, unavailable, is_success, no_status, with_retry}
use distcompile.Rpc.Retry.{Retried, with_retry-Retried}
use distcompile.Rpc.Delivery.{Delivers}
use distcompile.Db.Transaction.{Thrown, db_thrown, Engine, transaction}
use distcompile.Db.Transaction.Attempts.{IsEngine, Performs}
use distcompile.Db.Transaction.Atomic.{Ended, transaction-Ended}
use distcompile.Db.Pool.{serve, serve-length}
use distcompile.Examples.Tables.{built, site, done_result, built-Settled}

abbrev lost : Status
lost = record { code = unavailable; error_message = codes "connection reset" }

-- The number of calls so far; the third is answered.
abbrev third_time : ℕ → Status × ℕ
third_time zero = (lost, 1)
third_time (suc zero) = (lost, 2)
third_time (suc (suc n)) = (no_status, suc (suc (suc n)))

with_retry-Retried_example : Retried third_time 8 100 0 (with_retry third_time 8 0)
with_retry-Retried_example = with_retry-Retried third_time 8 0 (omega arith)

-- The tables, and whether the reply to the first completion was lost already.
abbrev lossy : Tx × Bool → Status × (Tx × Bool)
lossy (s, true) = (no_status, (completed site done_result s, true))
lossy (s, false) = (lost, (completed site done_result s, true))

lossy-Delivers : Delivers (completed site done_result) (λ (w : Tx × Bool). w.0) lossy
lossy-Delivers = record { arrives = λ w. arrives w; answered = λ w e. answered w e }
  where
    arrives :
        (w : Tx × Bool) → (lossy w).1.0 ≡ w.0 ⊎ ((lossy w).1.0 ≡ completed site done_result w.0)
    arrives (s, true) = inr refl
    arrives (s, false) = inr refl

    answered :
        (w : Tx × Bool)
        → is_success (lossy w).0.code ≡ true
        → (lossy w).1.0 ≡ completed site done_result w.0
    answered (s, true) e = refl
    answered (s, false) e = cc e

with_retry-complete_task_example :
    let out = with_retry lossy 8 (built running, false) in
    (out.world.0 ≡ built running ⊎ (out.world.0 ≡ completed site done_result (built running)))
    × (is_success out.status.code ≡ true → out.world.0 ≡ completed site done_result (built running))
with_retry-complete_task_example =
    with_retry-complete_task site done_result (λ w. w.0) lossy 8 (built running, false)
      lossy-Delivers built-Settled (omega arith)

-- A server with one number in its tables, and how many transactions it aborts.
record Server : Type 0 where
  number : ℕ
  shown : ℕ
  aborts : ℕ
  begun : Bool

abbrev engine : Engine Server
engine = record {
  get = λ w. (none, w);
  begin_tx = λ w. (none, record w { shown = w.number; begun = true });
  commit_tx = λ w. (none, record w { number = w.shown; begun = false });
  rollback_tx = λ w. record w { begun = false };
  release = λ w. w;
}

engine-IsEngine : IsEngine engine (λ w. w.number) (λ w. w.shown) (λ w. w.begun)
engine-IsEngine = record {
  get_keeps = λ w. refl;
  begin_keeps = λ w. refl;
  get_idle = λ w idle. idle;
  begin_shows = λ w idle e. refl;
  commit_writes = λ w e. refl;
  commit_ends = λ w e. refl;
  rollback_ends = λ w. refl;
  release_idle = λ w idle. idle;
  commit_fails = λ w e h. absurd (cc h);
  rollback_keeps = λ w. refl;
  release_keeps = λ w. refl;
}

abbrev deadlock : Thrown
deadlock = db_thrown (record { message = codes "deadlock detected"; sqlstate = codes "40P01" })

-- The body reads the number and adds one.
abbrev increment : ℕ → ℕ × ℕ
increment n = (n, n + 1)

abbrev step : ℕ → Server → Result Thrown ℕ × Server
step zero w = (ok w.shown, record w { shown = w.shown + 1 })
step (suc k) w = (err deadlock, record w { aborts = k })

abbrev adding : Server → Result Thrown ℕ × Server
adding w = step w.aborts w

adding-Performs : Performs increment (λ w. w.number) (λ w. w.shown) adding
adding-Performs = record {
  keeps = λ w. step-keeps w.aborts w;
  does = λ w a e. step-does w.aborts w a e;
}
  where
    step-keeps : (k : ℕ) (w : Server) → (step k w).1.number ≡ w.number
    step-keeps zero w = refl
    step-keeps (suc k) w = refl

    step-does :
        (k : ℕ) (w : Server) (a : ℕ)
        → (step k w).0 ≡ ok a
        → increment w.shown ≡ (a, (step k w).1.shown)
    step-does zero w a e = cc e
    step-does (suc k) w a e = absurd (cc e)

abbrev server : Server
server = record { number = 41; shown = 0; aborts = 2; begun = false }

transaction-Ended_example :
    Ended engine
      (λ w. w.number)
      (λ w. w.shown)
      (λ w. w.begun)
      increment
      adding
      41
      0
      server
      (transaction engine adding server)
transaction-Ended_example =
    transaction-Ended engine (λ w. w.number) (λ w. w.shown) (λ w. w.begun) increment adding server
      engine-IsEngine adding-Performs refl

-- Three callers and two connections, the first of them dead; the second caller cannot connect.
abbrev is_alive : ℕ → Bool
is_alive zero = false
is_alive (suc n) = true

serve-length_example :
    let out = serve is_alive (some 1 ∷ none ∷ none ∷ []) (0 ∷ 0 ∷ []) in
    length out.idle + out.thrown ≡ 2
serve-length_example = serve-length is_alive (some 1 ∷ none ∷ none ∷ []) (0 ∷ 0 ∷ [])
