-- ===== src/Coordinator/Lifecycle.antt =====
-- The life of a task as a diagram of its states, of which everything that the coordinator does to a
-- row is one arrow: the column tasks.state of sql/schema.sql.
use distcompile.Prelude.{
  ℕ, suc, ◌≤◌, ◌<◌, ◌≡◌, ◌≢◌, sym, ap, subst, ◌∙◌, ◌⊎◌, inl, inr, Bool, true, ◌||◌, arith,
}
use native.Mathlib.Decide.{ℕ_discrete}
use distcompile.Coordinator.Rows.{
  State, Task, waiting, ready, running, done, cached, failed, is_waiting, is_ready, is_open,
  is_finished, is_failed,
}
use distcompile.Coordinator.Finish.Settled.{Grown}

-- waiting → ready or cached; ready → running; ready or running → done or failed; running → ready. Only
-- a claim counts an attempt, and a task goes back to the queue below the bound on attempts.
pub data Move (max_attempts : ℕ) (x y : Task) : Type 0 where
  stayed : y.state ≡ x.state → y.attempts ≡ x.attempts → Move max_attempts x y
  prepared :
      is_waiting x.state ≡ true
      → (y.state ≡ ready) ⊎ (y.state ≡ cached)
      → y.attempts ≡ x.attempts
      → Move max_attempts x y
  taken : x.state ≡ ready → y.state ≡ running → y.attempts ≡ suc x.attempts → Move max_attempts x y
  passed : is_open x.state ≡ true → y.state ≡ done → y.attempts ≡ x.attempts → Move max_attempts x y
  gave_up :
      is_open x.state ≡ true → y.state ≡ failed → y.attempts ≡ x.attempts → Move max_attempts x y
  requeued :
      x.state ≡ running
      → y.state ≡ ready
      → y.attempts < max_attempts
      → y.attempts ≡ x.attempts
      → Move max_attempts x y

state_of_waiting : (s : State) → is_waiting s ≡ true → s ≡ waiting
state_of_waiting s h = ground arith

pub Grown-Move : (max_attempts : ℕ) (x y : Task) → Grown x y → Move max_attempts x y
Grown-Move m x y (inl e) = stayed (ap (λ z. z.state) e) (ap (λ z. z.attempts) e)
Grown-Move m x y (inr p) = elim p.3 [
  | inl still ↦ stayed (state_of_waiting y.state still ∙ sym (state_of_waiting x.state p.0)) p.1
  | inr forward ↦ prepared p.0 forward p.1
]

-- A row that was written as `row`, behind which waiting rows came forward.
pub done-Move :
    (max_attempts : ℕ) (x row y : Task)
    → is_open x.state ≡ true
    → row.state ≡ done
    → row.attempts ≡ x.attempts
    → Grown row y
    → Move max_attempts x y
done-Move m x row y old now same (inl e) =
    passed old (ap (λ z. z.state) e ∙ now) (ap (λ z. z.attempts) e ∙ same)
done-Move m x row y old now same (inr p) = absurd (cc (ap is_waiting now, p.0))

pub Move-all :
    (max_attempts : ℕ) (f g : ℕ → Task) (t : ℕ)
    → Move max_attempts (f t) (g t)
    → ((j : ℕ) → j ≢ t → Move max_attempts (f j) (g j))
    → (j : ℕ) → Move max_attempts (f j) (g j)
Move-all m f g t own others j = elim (ℕ_discrete j t) [
  | yes here ↦ subst (λ i. Move m (f i) (g i)) (sym here) own
  | no other ↦ others j other
]

-- No task is tried more often than the bound says, and one that is to be claimed less often.
pub record IsBounded (max_attempts : ℕ) (x : Task) : Type 0 where
  pub most : x.attempts ≤ max_attempts
  pub less : (is_waiting x.state || is_ready x.state) ≡ true → x.attempts < max_attempts

pub Move-IsBounded :
    (max_attempts : ℕ) (x y : Task)
    → Move max_attempts x y
    → IsBounded max_attempts x
    → IsBounded max_attempts y
Move-IsBounded m x y (stayed e f) b = record {
  most = omega (arith, b.most);
  less = λ h. ground (arith, b.less);
}
Move-IsBounded m x y (prepared w e f) b = record {
  most = omega (arith, b.most);
  less = λ h. ground (arith, b.less);
}
Move-IsBounded m x y (taken e f g) b = record {
  most = ground (arith, b.less);
  less = λ h. absurd (ground arith);
}
Move-IsBounded m x y (passed e f g) b = record {
  most = omega (arith, b.most);
  less = λ h. absurd (ground arith);
}
Move-IsBounded m x y (gave_up e f g) b = record {
  most = omega (arith, b.most);
  less = λ h. absurd (ground arith);
}
Move-IsBounded m x y (requeued e f g h) b = record { most = omega (arith, b.most); less = λ k. g }

abbrev pub is_final : State → Bool
is_final s = is_finished s || is_failed s

-- A task that is done, cached or failed stays so.
pub Move-final :
    (max_attempts : ℕ) (x y : Task)
    → Move max_attempts x y
    → is_final x.state ≡ true
    → y.state ≡ x.state
Move-final m x y (stayed e f) h = e
Move-final m x y (prepared w e f) h = absurd (ground arith)
Move-final m x y (taken e f g) h = absurd (ground arith)
Move-final m x y (passed e f g) h = absurd (ground arith)
Move-final m x y (gave_up e f g) h = absurd (ground arith)
Move-final m x y (requeued e f g k) h = absurd (ground arith)
