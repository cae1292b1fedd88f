-- ===== src/Coordinator/System/Runs.antt =====
-- Every run of the coordinator: what holds of the tables that it reaches, and how a task and a build may
-- change on the way.
use distcompile.Prelude.{
  ℕ, ◌≤◌, ◌<◌, ◌≡◌, ◌≢◌, refl, sym, ap, ◌∙◌, inl, inr, true, false, [], Text, arith,
}
use distcompile.Coordinator.Rows.{is_open, active}
use distcompile.Cas.{Files, has, valid_hash}
use distcompile.Coordinator.Lifecycle.{Move-final, is_final}
use distcompile.Coordinator.Complete.{Site}
use distcompile.Coordinator.Complete.Filled.{complete_task-Fills}
use distcompile.Coordinator.Claim.Best.{try_claim-Claimed}
use distcompile.Coordinator.Submit.Order.{submit_build-IsInOrder}
use distcompile.Coordinator.System.{
  Step, submits, claims, beats, completes, overlaps, reaps, looks, Reach, here, next, tx_at, put_tx,
  site_at, World, SubmitsLeaves, AllLeaves,
}
use distcompile.Coordinator.System.Live.{IsInOrder-live}
use distcompile.Coordinator.System.Steps.{complete_task-Keeps}
use distcompile.Coordinator.System.Advances.{
  IsSane, Advances, new_build-Advances, claim-Advances, old_builds, one_build, reap-Advances,
  overlap-Advances, look-Advances, beat-Advances,
}

-- What is final stays as it is.
pub record Lasting (x y : World) : Type 0 where
  pub grows : x.db.next_build ≤ y.db.next_build
  pub sizes : (b : ℕ) → b < x.db.next_build → (y.db.builds b).total ≡ (x.db.builds b).total
  pub tasks :
      (b i : ℕ)
      → b < x.db.next_build
      → is_final ((x.db.builds b).task i).state ≡ true
      → ((y.db.builds b).task i).state ≡ ((x.db.builds b).task i).state
  pub states :
      (b : ℕ)
      → b < x.db.next_build
      → (x.db.builds b).state ≢ active
      → (y.db.builds b).state ≡ (x.db.builds b).state

has-unnamed : (root : Text) (files : Files) → has root files [] ≡ false
unfolding has valid_hash
has-unnamed root files = refl

module _ (site : Site) (some_attempts : 0 < site.max_attempts) where
  -- Every step on tables in order leaves them in order, and moves each task of each build by one arrow
  -- of the diagram of states at most, and a build in state 'running' at most to the state that its
  -- tasks give it. A step is a transaction of a handler, of which completions may overlap so that one
  -- does not see what the others finish, or a statement of the reaper, which may stop between its
  -- statements; when it submits a build, the compilations of that build depend on nothing. (A task may
  -- be tried at least once.)
  pub Step-Advances :
      {x y : World} (step : Step site x y)
      → SubmitsLeaves step
      → IsSane site.max_attempts x
      → Advances site.max_attempts x y
  Step-Advances {x} (submits root files parts toolchain specs s e) leaf sane =
      let (o, honest, filled) =
        submit_build-IsInOrder site.max_attempts site.sha256 (has root files) parts toolchain specs
          x.db.cache s some_attempts sane.filled leaf e in
      new_build-Advances site.max_attempts x sane s o honest filled
  Step-Advances {x} (claims {db' = db'} q lease_s now locked u e) leaf sane =
      claim-Advances site.max_attempts x sane q lease_s now locked u db'
        (try_claim-Claimed q lease_s now locked x.db db' u e)
  Step-Advances {x} (beats worker lease_s now) leaf sane =
      beat-Advances site.max_attempts x sane worker lease_s now
  Step-Advances {x} (completes root files b now r s accepted below e) leaf sane =
      let at = site_at site root files now in
      old_builds site.max_attempts x sane (put_tx x.db b s) refl
        (complete_task-Fills at r (tx_at x.db b) s accepted (has-unnamed root files) sane.filled e)
        (one_build site.max_attempts x sane b s.build
          (λ h. complete_task-Keeps at r (tx_at x.db b) s accepted (sane.builds b below) e))
  Step-Advances {x} (overlaps root files b now r s accepted below e) leaf sane =
      let at = site_at site root files now in
      overlap-Advances site.max_attempts x sane b s below
        (complete_task-Fills at r (tx_at x.db b) s accepted (has-unnamed root files) sane.filled e)
        (complete_task-Keeps at r (tx_at x.db b) s accepted (sane.builds b below) e)
  Step-Advances {x} (reaps now) leaf sane = reap-Advances site.max_attempts x sane now
  Step-Advances {x} (looks b below) leaf sane = look-Advances site.max_attempts x sane b below

  -- Whatever transactions and statements of the reaper run, in any order, and however the blob store
  -- changes meanwhile, from tables in order (an empty database, for one), where in every build that is
  -- submitted the compilations depend on nothing: each build's counters are right; a build that is not
  -- 'running' is 'failed' with a failed task or 'done' with all tasks finished; a build in state
  -- 'running' has no failed task and not all tasks finished, unless the coordinator owes it a look,
  -- because the reaper gave up a task of it, or because completions of it overlapped, and `maybe_finish`
  -- of the reaper did not look at it since; and no task was tried more often than the bound on attempts
  -- says. (A task may be tried at least once.)
  pub Reach-IsSane :
      {x y : World} (run : Reach site x y)
      → AllLeaves run
      → IsSane site.max_attempts x
      → IsSane site.max_attempts y
  Reach-IsSane here leaf sane = sane
  Reach-IsSane (next run step) leaf sane =
      (Step-Advances step leaf.1 (Reach-IsSane run leaf.0 sane)).sane

  -- In a run from tables in order, where in every build that is submitted the compilations depend on
  -- nothing, a build in state 'running' always has a task that is ready or running, unless the
  -- coordinator owes it a look, because the reaper gave up a task of it, or because completions of it
  -- overlapped, and `maybe_finish` of the reaper did not look at it since: no task is left waiting for
  -- what nobody will do. (A task may be tried at least once.)
  pub Reach-live :
      {x y : World} (b : ℕ) (run : Reach site x y)
      → AllLeaves run
      → IsSane site.max_attempts x
      → b < y.db.next_build
      → y.behind b ≡ false
      → (y.db.builds b).state ≡ active
      → (j : ℕ) × (j < (y.db.builds b).total) × (is_open ((y.db.builds b).task j).state ≡ true)
  Reach-live {x} {y} b run leaf sane below level going =
      let sane' = Reach-IsSane run leaf sane in
      IsInOrder-live site.max_attempts (y.db.builds b) (sane'.builds b below)
        (sane'.level b below level) going

  Lasting-next : {x y z : World} → Lasting x y → Advances site.max_attempts y z → Lasting x z
  Lasting-next {x} {y} {z} l a = record {
    grows = omega (arith, l.grows, a.grows);
    sizes = λ b below. (a.progress b (omega (arith, l.grows))).total ∙ l.sizes b below;
    tasks = λ b i below final.
        let before = l.tasks b i below final in
        Move-final site.max_attempts ((y.db.builds b).task i) ((z.db.builds b).task i)
          ((a.progress b (omega (arith, l.grows))).moved i) (ap is_final before ∙ final)
        ∙ before;
    states = λ b below over.
        let before = l.states b below over in
        elim (a.progress b (omega (arith, l.grows))).closes [
          | inl same ↦ same ∙ before
          | inr (a, judged) ↦ absurd (over (sym before ∙ a))
        ];
  }

  -- In a run from tables in order, where in every build that is submitted the compilations depend on
  -- nothing, a task that is done, cached or failed stays so, a build that was closed keeps its state,
  -- and every build keeps its number of tasks. A run has no crash of PostgreSQL, which may undo the
  -- last transactions. (A task may be tried at least once.)
  pub Reach-Lasting :
      {x y : World} (run : Reach site x y)
      → AllLeaves run
      → IsSane site.max_attempts x
      → Lasting x y
  Reach-Lasting here leaf sane = record {
    grows = omega arith;
    sizes = λ b below. refl;
    tasks = λ b i below final. refl;
    states = λ b below over. refl;
  }
  Reach-Lasting (next run step) leaf sane =
      Lasting-next (Reach-Lasting run leaf.0 sane)
        (Step-Advances step leaf.1 (Reach-IsSane run leaf.0 sane))
