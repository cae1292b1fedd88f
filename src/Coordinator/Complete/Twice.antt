-- ===== src/Coordinator/Complete/Twice.antt =====
-- A completion that is sent twice.
use distcompile.Prelude.{◌≡◌, sym, subst, ◌∙◌, Bool, true, false, Option, some, arith}
use distcompile.Coordinator.Finish.{Tx}
use distcompile.Coordinator.Finish.Settled.{Settled}
use distcompile.Coordinator.Complete.{
  TaskResult, Site, retry_copy, complete_done, complete_retry, complete_failed, complete_tx,
  complete_task,
}
use distcompile.Coordinator.Complete.Invariant.{
  nothing_owed, takes, effective, complete_task-Completed,
}

-- A result that the row does not take is refused.
complete_tx-refused :
    (site : Site) (r : TaskResult) (s : Tx)
    → takes r (s.build.task r.task) ≡ false
    → complete_tx site r s ≡ some (s, false)
unfolding complete_tx complete_done complete_retry complete_failed
complete_tx-refused site r s h = ground arith

complete_task-effective :
    (site : Site) (r : TaskResult) (s : Tx)
    → complete_task site r s ≡ complete_tx site (effective site r) s
unfolding complete_task
complete_task-effective site r s = ground arith

effective-task : (site : Site) (r : TaskResult) → (effective site r).task ≡ r.task
unfolding retry_copy
effective-task site r = ground arith

some-pair :
    {a b : Tx} {x y : Bool}
    → ◌≡◌ {A = Option (Tx × Bool)} (some (a, x)) (some (b, y))
    → (a ≡ b) × (x ≡ y)
some-pair h = (cc, cc)

-- When a completion was accepted, on a build whose counters were right, the same one sent again is
-- refused and changes nothing.
pub complete_task_twice :
    (site : Site) (r : TaskResult) (s s' : Tx)
    → Settled s.build nothing_owed
    → complete_task site r s ≡ some (s', true)
    → complete_task site r s' ≡ some (s', false)
complete_task_twice site r s s' v h =
    let done = complete_task-Completed site r s v in
    let (same, accepted) = some-pair (sym done.ends ∙ h) in
    complete_task-effective site r s'
    ∙ complete_tx-refused site (effective site r) s' (
        rw (effective-task site r) (
          subst (λ z. takes (effective site r) (z.build.task r.task) ≡ false) same
            (done.written accepted)))
