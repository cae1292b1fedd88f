-- ===== src/Coordinator/Complete/Delivery.antt =====
-- A completion that a worker sends over a network which loses requests and replies.
use distcompile.Prelude.{
  ℕ, ◌<◌, ◌≡◌, refl, sym, ap, subst, ◌∙◌, ◌⊎◌, inl, inr, Bool, true, false, none, some, Bool-cases,
}
use distcompile.Coordinator.Finish.{Tx}
use distcompile.Coordinator.Finish.Settled.{Settled}
use distcompile.Coordinator.Complete.{TaskResult, Site, complete_task}
use distcompile.Coordinator.Complete.Invariant.{nothing_owed, complete_task-Completed}
use distcompile.Coordinator.Complete.Twice.{complete_task_twice}
use distcompile.Rpc.{Status, is_success, with_retry}
use distcompile.Rpc.Delivery.{Delivers, with_retry-once}

-- The tables behind a completion.
abbrev pub completed : Site → TaskResult → Tx → Tx
completed site r s = elim (complete_task site r s) [ none ↦ s | some out ↦ out.0 ]

completed-of :
    (site : Site) (r : TaskResult) (s s' : Tx) (accepted : Bool)
    → complete_task site r s ≡ some (s', accepted)
    → completed site r s ≡ s'
completed-of site r s s' accepted e = rw (e, completed) refl

completed-again :
    (site : Site) (r : TaskResult) (s : Tx)
    → Settled s.build nothing_owed
    → completed site r (completed site r s) ≡ completed site r s
completed-again site r s v =
    let c = complete_task-Completed site r s v in
    let here = completed-of site r s c.after c.accepted c.ends in
    elim (Bool-cases c.accepted) [
      | inl taken ↦
          let first = subst (λ b. complete_task site r s ≡ some (c.after, b)) taken c.ends in
          ap (completed site r) here
          ∙ completed-of site r c.after c.after false (complete_task_twice site r s c.after v first)
          ∙ sym here
      | inr kept ↦ ap (completed site r) (here ∙ c.refused kept)
    ]

-- A worker repeats a completion until it is answered, or the attempts run out, while requests and
-- replies get lost as they please. If the counters were right, the tables are then those of one
-- completion, or, when no request arrived, those before; if the worker sees success, they are those
-- of one completion.
pub with_retry-complete_task {ℓ} :
    {W : Type ℓ} (site : Site) (r : TaskResult) (tables : W → Tx) (fn : W → Status × W)
    (attempts : ℕ) (w : W)
    → Delivers (completed site r) tables fn
    → Settled (tables w).build nothing_owed
    → 0 < attempts
    → let out = with_retry fn attempts w in
      (tables out.world ≡ tables w ⊎ (tables out.world ≡ completed site r (tables w)))
      × (is_success out.status.code ≡ true → tables out.world ≡ completed site r (tables w))
with_retry-complete_task site r tables fn attempts w d v some_left =
    with_retry-once (completed site r) tables fn d attempts w some_left
      (completed-again site r (tables w) v)
