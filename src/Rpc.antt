-- ===== src/Rpc.antt =====
-- rpc.h: `with_retry`. The stub is a parameter: `fn` is one call, from what it acts on (the other side,
-- the reply's message) to the status and what it leaves. Timers and the deadline of a call are left
-- out; the times slept are part of the outcome.
pub mod Retry
pub mod Delivery
use distcompile.Prelude.{
  ℕ, zero, suc, ◌+◌, ◌*◌, min, Bool, true, false, not, ◌||◌, List, [], ◌∷◌, Text, if◌then◌else◌,
}

-- The codes of grpc::Status that the code tells apart.
pub data Code : Type 0 where
  success unavailable deadline_exceeded : Code
  other_code : ℕ → Code

pub record Status : Type 0 where
  pub code : Code
  pub error_message : Text

abbrev pub is_success : Code → Bool
is_success success = true
is_success unavailable = false
is_success deadline_exceeded = false
is_success (other_code n) = false

-- `code != UNAVAILABLE && code != DEADLINE_EXCEEDED`, negated.
abbrev pub is_transient : Code → Bool
is_transient unavailable = true
is_transient deadline_exceeded = true
is_transient success = false
is_transient (other_code n) = false

-- A default-constructed grpc::Status.
abbrev pub no_status : Status
no_status = record { code = success; error_message = [] }

pub record Outcome {ℓ} (W : Type ℓ) : Type ℓ where
  pub status : Status
  pub world : W
  pub slept : List ℕ

abbrev pub next_backoff : ℕ → ℕ
next_backoff backoff_ms = min (backoff_ms * 2) 3000

module _ {ℓ} {W : Type ℓ} (fn : W → Status × W) where
  -- The loop, with the attempts that are left.
  unfoldable pub retry_loop : ℕ → Status → ℕ → W → Outcome W
  retry_loop zero st backoff_ms w = record { status = st; world = w; slept = [] }
  retry_loop (suc k) st backoff_ms w =
      let (st', w') = fn w in
      let rest = retry_loop k st' (next_backoff backoff_ms) w' in
      if is_success st'.code
      then record { status = st'; world = w'; slept = [] }
      else if not (is_transient st'.code)
      then record { status = st'; world = w'; slept = [] }
      else record rest { slept = backoff_ms ∷ rest.slept }

  unfoldable pub with_retry : ℕ → W → Outcome W
  unfolding retry_loop
  with_retry attempts w = retry_loop attempts no_status 100 w
