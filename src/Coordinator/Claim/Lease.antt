-- ===== src/Coordinator/Claim/Lease.antt =====
-- Leases: what a heartbeat keeps, and what the reaper does with a task whose lease ran out.
use distcompile.Prelude.{
  ℕ, zero, suc, ◌+◌, ◌*◌, ◌≤◌, ◌<◌, ◌≡◌, ◌≢◌, sym, ap, subst, ◌∙◌, inl, inr, Bool, ◌&&◌, refl, true,
  false, none, some, Text, arith, ltb, Bool-cases, text_eq_refl,
}
use distcompile.Coordinator.Rows.{
  Task, ready, running, failed, active, is_failed, is_finished, is_waiting, count_tasks,
}
use distcompile.Coordinator.Finish.{Tx, maybe_finish}
use distcompile.Coordinator.Finish.Counting.{unfinished-cong}
use distcompile.Coordinator.Finish.Settled.{
  Settled, Settled-rows, maybe_finish-rows, maybe_finish-failed,
}
use distcompile.Coordinator.Claim.{
  Db, heartbeat, heartbeat_row, is_expired, reap_row, reap_rows, reap_build, given_up, gave_up,
}

heartbeat_row-keeps :
    (worker : Text) (until later max_attempts : ℕ) (x : Task)
    → x.state ≡ running
    → x.lease_owner ≡ some worker
    → later ≤ until
    → let y = heartbeat_row worker until x in
      (y.state ≡ running) × (y.lease_owner ≡ some worker) × (reap_row max_attempts later y ≡ y)
unfolding heartbeat_row reap_row
heartbeat_row-keeps worker until later max_attempts x st own fits =
    ground (arith, text_eq_refl worker)

-- A worker that reports in time keeps its running tasks: after the heartbeat the task is still
-- running under its name, and a round of the reaper up to the end of the new lease leaves the row
-- as it is.
pub heartbeat_keeps :
    (worker : Text) (lease_s now later max_attempts b i : ℕ) (db : Db)
    → ((db.builds b).task i).state ≡ running
    → ((db.builds b).task i).lease_owner ≡ some worker
    → later ≤ now + lease_s * 1000
    → let x = ((heartbeat worker lease_s now db).builds b).task i in
      (x.state ≡ running) × (x.lease_owner ≡ some worker) × (reap_row max_attempts later x ≡ x)
unfolding heartbeat reap_row
heartbeat_keeps worker lease_s now later max_attempts b i db st own fits =
    heartbeat_row-keeps worker (now + lease_s * 1000) later max_attempts ((db.builds b).task i) st
      own fits

-- What a round does to a row: a task whose lease ran out goes back to the queue, or fails when it
-- was tried often enough, and its last worker is remembered; every other row stays.
pub record Reaped (max_attempts now : ℕ) (x y : Task) : Type 0 where
  pub kept : is_expired now x ≡ false → y ≡ x
  pub requeued :
      is_expired now x ≡ true
      → x.attempts < max_attempts
      → (y.state ≡ ready)
        × (y.lease_owner ≡ none)
        × (y.last_failed_by ≡ x.lease_owner)
        × (y.ready_at ≡ some now)
        × (y.log ≡ x.log)
  pub gave :
      is_expired now x ≡ true
      → max_attempts ≤ x.attempts
      → (y.state ≡ failed) × (y.log ≡ some (gave_up x.attempts))

pub reap_row-Reaped :
    (max_attempts now : ℕ) (x : Task) → Reaped max_attempts now x (reap_row max_attempts now x)
unfolding reap_row
reap_row-Reaped max_attempts now x = record {
  kept = λ e. ground arith;
  requeued = λ e h. ground arith;
  gave = λ e h. ground arith;
}

pub reap_row-states :
    (max_attempts now : ℕ) (x : Task)
    → let y = reap_row max_attempts now x in
      (is_finished y.state ≡ is_finished x.state)
      × (is_waiting y.state ≡ is_waiting x.state)
      × (y.pending_deps ≡ x.pending_deps)
unfolding reap_row
reap_row-states max_attempts now x = ground arith

-- A row that is given up is a failed task of the build.
given_up-failed :
    (max_attempts now n : ℕ) (task : ℕ → Task)
    → 0 < given_up max_attempts now n task
    → 0 < count_tasks is_failed n (λ i. reap_row max_attempts now (task i))
unfolding given_up count_tasks
given_up-failed max_attempts now zero task h = absurd (omega arith)
given_up-failed max_attempts now (suc n) task h = ground (
  arith,
  given_up-failed max_attempts now n task,
  (reap_row-Reaped max_attempts now (task n)).gave,
)

-- What a round of the reaper does to a build.
pub record RoundOf (max_attempts now : ℕ) (reached : Bool) (s s' : Tx) : Type 0 where
  pub rows : (i : ℕ) → Reaped max_attempts now (s.build.task i) (s'.build.task i)
  pub settled : {owed : ℕ → ℕ} → Settled s.build owed → Settled s'.build owed
  pub closes :
      reached ≡ true
      → 0 < given_up max_attempts now s.build.total s.build.task
      → s'.build.state ≢ active
  pub stays : reached ≡ false → s'.build.state ≡ s.build.state

reap_rows-Reaped :
    (max_attempts now : ℕ) (s : Tx) (i : ℕ)
    → Reaped max_attempts now (s.build.task i) ((reap_rows max_attempts now s).build.task i)
unfolding reap_rows
reap_rows-Reaped max_attempts now s i = reap_row-Reaped max_attempts now (s.build.task i)

reap_rows-failed :
    (max_attempts now : ℕ) (s : Tx)
    → 0 < given_up max_attempts now s.build.total s.build.task
    → let b = (reap_rows max_attempts now s).build in 0 < count_tasks is_failed b.total b.task
unfolding reap_rows
reap_rows-failed max_attempts now s h =
    given_up-failed max_attempts now s.build.total s.build.task h

reap_rows-Settled :
    (max_attempts now : ℕ) (s : Tx) {owed : ℕ → ℕ}
    → Settled s.build owed
    → Settled (reap_rows max_attempts now s).build owed
unfolding reap_rows
reap_rows-Settled max_attempts now s {owed} v =
    let same = λ (j : ℕ). reap_row-states max_attempts now (s.build.task j) in
    record {
      pending = λ j h.
          (same j).2
          ∙ v.pending j h
          ∙ ap (λ n. n + owed j)
              (sym (
                unfinished-cong (λ i. reap_row max_attempts now (s.build.task i)) s.build.task j
                  s.build.edges (λ i. (same i).0)));
      waits = λ j h. (same j).1 ∙ v.waits j h ∙ ap (ltb 0) (sym (same j).2);
    }

reap_rows-RoundOf :
    (max_attempts now : ℕ) (reached : Bool) (s : Tx)
    → (reached && ltb 0 (given_up max_attempts now s.build.total s.build.task)) ≡ false
    → RoundOf max_attempts now reached s (reap_rows max_attempts now s)
unfolding reap_rows
reap_rows-RoundOf max_attempts now reached s nothing_lost = record {
  rows = reap_rows-Reaped max_attempts now s;
  settled = λ {owed} v. reap_rows-Settled max_attempts now s v;
  closes = λ r h. absurd (ground (arith, nothing_lost));
  stays = λ r. refl;
}

-- A round of the reaper, when nothing else writes the rows of the build meanwhile, requeues each running
-- task whose lease ran out, or fails it when it was tried often enough, leaves every other row as it
-- is, and keeps the counters right. A build of which it gave up a task is not left in state
-- 'running' when the round gets as far as that build; when an error ends the round before, the
-- build keeps its state.
pub reap_build-RoundOf :
    (max_attempts now : ℕ) (reached : Bool) (s : Tx)
    → RoundOf max_attempts now reached s (reap_build max_attempts now reached s)
unfolding reap_build
reap_build-RoundOf max_attempts now reached s =
    let s' = reap_rows max_attempts now s in
    let looked = maybe_finish-rows s' in
    elim (Bool-cases (reached && ltb 0 (given_up max_attempts now s.build.total s.build.task))) [
      | inl some_lost ↦ rw some_lost (record {
        rows = λ i.
            subst (λ f. Reaped max_attempts now (s.build.task i) (f i)) (sym looked.2)
              (reap_rows-Reaped max_attempts now s i);
        settled = λ {owed} v.
            Settled-rows s'.build (maybe_finish s').build owed looked.0 looked.1 looked.2
              (reap_rows-Settled max_attempts now s v);
        closes = λ r h. maybe_finish-failed s' (reap_rows-failed max_attempts now s h);
        stays = λ r. absurd (ground arith);
      })
      | inr none_lost ↦ rw none_lost (reap_rows-RoundOf max_attempts now reached s none_lost)
    ]
