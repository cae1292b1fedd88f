-- ===== src/Rpc/Retry.antt =====
-- What `with_retry` does with the answers of its calls.
use native.Mathlib.Nat.{one-le-pow, pow-succ', mul_assoc, mul-le-mul_left}
use native.Mathlib.Decide.{dec_le}
use distcompile.Prelude.{
  ℕ, zero, suc, ◌*◌, ◌^◌, ◌≤◌, ◌<◌, min, ◌≡◌, refl, sym, ap, subst, ◌∙◌, ◌⊎◌, inl, inr, true, false,
  List, [], ◌∷◌, arith, Bool-cases, get_elem?, some,
}
use distcompile.Rpc.{
  Code, other_code, success, unavailable, deadline_exceeded, Status, Outcome, is_success,
  is_transient, no_status, next_backoff, retry_loop, with_retry,
}

module _ {ℓ} {W : Type ℓ} (fn : W → Status × W) where
  -- What n calls in a row leave, and what the call after them answers.
  abbrev pub after : ℕ → W → W
  after zero w = w
  after (suc n) w = after n (fn w).1

  abbrev pub answer : ℕ → W → Status
  answer n w = (fn (after n w)).0

  -- What the loop returns with `attempts` left, by the number of its calls: all but the last were
  -- answered with a transient error, and the last was not, or was the last that was allowed.
  pub record Retried (attempts backoff_ms : ℕ) (w : W) (out : Outcome W) : Type ℓ where
    pub retries : ℕ
    pub within : retries < attempts
    pub world : out.world ≡ after (suc retries) w
    pub status : out.status ≡ answer retries w
    pub transient : (i : ℕ) → i < retries → is_transient (answer i w).code ≡ true
    pub ends : is_transient out.status.code ≡ false ⊎ (suc retries ≡ attempts)
    pub slept : (i : ℕ) → i < retries → get_elem? out.slept i ≡ some (min (backoff_ms * 2 ^ i) 3000)

backoff_twice : (b i : ℕ) → min (next_backoff b * 2 ^ i) 3000 ≡ min (b * 2 ^ suc i) 3000
backoff_twice b i =
    let one = one-le-pow i 2 (omega arith) in
    elim (dec_le (b * 2) 3000) [
      | yes small ↦
          let same : next_backoff b ≡ b * 2 = omega arith in
          rw (same, pow-succ' 2 i, mul_assoc b 2 (2 ^ i)) refl
      | no large ↦
          let same : next_backoff b ≡ 3000 = omega arith in
          let big : b * 2 ≤ b * 2 ^ suc i =
            rw (pow-succ' 2 i) (mul-le-mul_left b (omega (arith, one))) in
          rw same (omega (arith, one, big))
    ]

transient-fails : (c : Code) → is_transient c ≡ true → is_success c ≡ false
transient-fails success h = cc
transient-fails unavailable h = refl
transient-fails deadline_exceeded h = refl
transient-fails (other_code n) h = cc

first_backoff : (b : ℕ) → b ≤ 3000 → min (b * 2 ^ 0) 3000 ≡ b
first_backoff b h = omega arith

module _ {ℓ} {W : Type ℓ} (fn : W → Status × W) where
  -- The three ends of a round.
  retry_loop-final :
      (k b : ℕ) (st : Status) (w : W)
      → is_transient (fn w).0.code ≡ false
      → retry_loop fn (suc k) st b w ≡ record { status = (fn w).0; world = (fn w).1; slept = [] }
  unfolding retry_loop
  retry_loop-final k b st w h = elim (Bool-cases (is_success (fn w).0.code)) [
    | inl e ↦ rw e refl
    | inr e ↦ rw (e, h) refl
  ]

  retry_loop-again :
      (k b : ℕ) (st : Status) (w : W)
      → is_transient (fn w).0.code ≡ true
      → let rest = retry_loop fn k (fn w).0 (next_backoff b) (fn w).1 in
        retry_loop fn (suc k) st b w ≡ record rest { slept = b ∷ rest.slept }
  unfolding retry_loop
  retry_loop-again k b st w h = rw (transient-fails (fn w).0.code h, h) refl

  -- A transient answer before what the rest of the loop does.
  again-Retried :
      (k b : ℕ) (w : W) (out : Outcome W)
      → b ≤ 3000
      → is_transient (fn w).0.code ≡ true
      → Retried fn k (next_backoff b) (fn w).1 out
      → Retried fn (suc k) b w (record out { slept = b ∷ out.slept })
  again-Retried k b w out small again r = record {
    retries = suc r.retries;
    within = omega (arith, r.within);
    world = r.world;
    status = r.status;
    transient = λ i h. shifted_transient i h;
    ends = elim r.ends [ inl final ↦ inl final | inr last ↦ inr (omega (arith, last)) ];
    slept = λ i h. shifted_slept i h;
  }
    where
      shifted_transient : (i : ℕ) → i < suc r.retries → is_transient (answer fn i w).code ≡ true
      shifted_transient zero h = again
      shifted_transient (suc i) h = r.transient i (omega arith)

      shifted_slept :
          (i : ℕ) → i < suc r.retries → get_elem? (b ∷ out.slept) i ≡ some (min (b * 2 ^ i) 3000)
      shifted_slept zero h = ap some (sym (first_backoff b small))
      shifted_slept (suc i) h = r.slept i (omega arith) ∙ ap some (backoff_twice b i)

  -- A loop that ends behind its first call.
  first-Retried :
      (k b : ℕ) (w : W) (slept : List ℕ)
      → is_transient (fn w).0.code ≡ false ⊎ (1 ≡ suc k)
      → Retried fn (suc k) b w (record { status = (fn w).0; world = (fn w).1; slept = slept })
  first-Retried k b w slept ends = record {
    retries = 0;
    within = omega arith;
    world = refl;
    status = refl;
    transient = λ i h. absurd (omega arith);
    ends = ends;
    slept = λ i h. absurd (omega arith);
  }

  -- A round before the rest of the loop.
  round-Retried :
      (k b : ℕ) (st : Status) (w : W)
      → (is_transient (fn w).0.code ≡ true
          → let rest = retry_loop fn k (fn w).0 (next_backoff b) (fn w).1 in
            Retried fn (suc k) b w (record rest { slept = b ∷ rest.slept }))
      → Retried fn (suc k) b w (retry_loop fn (suc k) st b w)
  round-Retried k b st w rest = elim (Bool-cases (is_transient (fn w).0.code)) [
    | inr final ↦
        subst (Retried fn (suc k) b w) (sym (retry_loop-final k b st w final))
          (first-Retried k b w [] (inl final))
    | inl again ↦
        subst (Retried fn (suc k) b w) (sym (retry_loop-again k b st w again)) (rest again)
  ]

  retry_loop-Retried :
      (k b : ℕ) (st : Status) (w : W)
      → b ≤ 3000
      → Retried fn (suc k) b w (retry_loop fn (suc k) st b w)
  unfolding retry_loop
  retry_loop-Retried zero b st w small =
      round-Retried 0 b st w (λ again. first-Retried 0 b w (b ∷ []) (inr refl))
  retry_loop-Retried (suc k) b st w small = round-Retried (suc k) b st w (λ again.
      again-Retried (suc k) b w _ small again
        (retry_loop-Retried k (next_backoff b) (fn w).0 (fn w).1 (omega arith)))

  -- `with_retry`, with one attempt at least, makes at most that many calls: all but the last were
  -- answered UNAVAILABLE or DEADLINE_EXCEEDED, the status is the answer of the last call, which was
  -- another one unless the attempts ran out, the effect is that of these calls and no more, and
  -- the time slept behind call number i is 100 * 2 ^ i milliseconds, and 3000 from there on.
  pub with_retry-Retried :
      (attempts : ℕ) (w : W) → 0 < attempts → Retried fn attempts 100 w (with_retry fn attempts w)
  unfolding with_retry
  with_retry-Retried zero w h = absurd (omega arith)
  with_retry-Retried (suc k) w h = retry_loop-Retried k 100 no_status w (omega arith)
