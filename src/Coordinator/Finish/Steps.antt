-- ===== src/Coordinator/Finish/Steps.antt =====
-- One countdown: the row of the dependent, before and after it is made ready.
use distcompile.Prelude.{update, ℕ, ◌+◌, ◌<◌, ◌≡◌, ◌≢◌, refl, ap, true, false, [], ◌∷◌, arith}
use distcompile.Prelude.Counts.{count}
use distcompile.Coordinator.Rows.{State, ready, cached, Task, Build, is_finished, is_waiting}
use distcompile.Coordinator.Finish.{counted, count_edges}
use distcompile.Coordinator.Finish.Counting.{unfinished-finish, unfinished-same, count_tasks-update}
use distcompile.Coordinator.Finish.Settled.{Settled, waiting_tasks}

-- A build with a row written.
abbrev pub put_row : Build → ℕ → Task → Build
put_row b t r = record b { task = update b.task t r }

-- Both writes to the row of a task that gets ready or is found in the cache.
abbrev pub put_twice : Build → ℕ → Task → Build
put_twice b t r = put_row (put_row b t (counted (b.task t))) t r

waiting-unfinished : (x : State) → is_waiting x ≡ true → is_finished x ≡ false
waiting-unfinished x h = ground arith

module _ (b : Build) (owed : ℕ → ℕ) (t : ℕ) (below : t < b.total)
    (s : Settled b (λ j. owed j + count j (t ∷ []))) where
  owes : 0 < (b.task t).pending_deps
  owes = ground (arith, s.pending t below)

  pub is_waiting-t : is_waiting (b.task t).state ≡ true
  is_waiting-t = ground (arith, s.waits t below, owes)

  not_finished : is_finished (b.task t).state ≡ false
  not_finished = waiting-unfinished (b.task t).state is_waiting-t

  -- The counter did not reach 0: the task goes on waiting.
  pub counted-Settled :
      (b.task t).pending_deps ≢ 1 → Settled (put_row b t (counted (b.task t))) owed
  unfolding counted
  counted-Settled more = record {
    pending = λ j h. ground (
      arith,
      s.pending j h,
      s.pending t below,
      owes,
      unfinished-same b.task t (counted (b.task t)) j b.edges refl,
    );
    waits = λ j h. ground (arith, s.waits j h, s.waits t below, owes);
  }

  module _ (r : Task) (one : (b.task t).pending_deps ≡ 1) (none_left : r.pending_deps ≡ 0) where
    -- The task gets ready.
    pub ready-Settled : r.state ≡ ready → Settled (put_twice b t r) owed
    unfolding counted
    ready-Settled e = record {
      pending = λ j h. ground (
        arith,
        s.pending j h,
        s.pending t below,
        one,
        unfinished-same b.task t (counted (b.task t)) j b.edges refl,
        unfinished-same (update b.task t (counted (b.task t))) t r j b.edges
            (ground (arith, not_finished)),
      );
      waits = λ j h. ground (arith, s.waits j h);
    }

    -- The task was found in the cache: now its own dependents are owed a countdown.
    pub cached-Settled :
        r.state ≡ cached → Settled (put_twice b t r) (λ j. owed j + count_edges j t b.edges)
    unfolding counted
    cached-Settled e = record {
      pending = λ j h. ground (
        arith,
        s.pending j h,
        s.pending t below,
        one,
        unfinished-same b.task t (counted (b.task t)) j b.edges refl,
        unfinished-finish (update b.task t (counted (b.task t))) t r j b.edges
            (ground (arith, not_finished)) (ap is_finished e),
      );
      waits = λ j h. ground (arith, s.waits j h);
    }

    pub put_twice-fewer :
        is_waiting r.state ≡ false → waiting_tasks (put_twice b t r) < waiting_tasks b
    put_twice-fewer e = ground (
      arith,
      is_waiting-t,
      below,
      count_tasks-update is_waiting b.total b.task t (counted (b.task t)),
      count_tasks-update is_waiting b.total (update b.task t (counted (b.task t))) t r,
    )
