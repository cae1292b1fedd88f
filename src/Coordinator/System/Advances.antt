-- ===== src/Coordinator/System/Advances.antt =====
-- Tables in order, and what each kind of step does to them.
use distcompile.Prelude.{
  update, ℕ, suc, ◌+◌, ◌*◌, ◌≤◌, ◌<◌, ◌≡◌, refl, sym, subst, inl, inr, Bool, ◌||◌, false, Text,
  arith, ◌==◌, Bool-cases, true,
}
use distcompile.Coordinator.Rows.{Build}
use distcompile.Coordinator.Finish.{Tx, maybe_finish}
use distcompile.Coordinator.Finish.Settled.{maybe_finish-IsHonest, maybe_finish-IsClosed}
use distcompile.Coordinator.Finish.Filled.{IsFilled, maybe_finish-cache}
use distcompile.Coordinator.Claim.{ClaimRequest, Db, Uid, row_at, set_row, running_row, heartbeat}
use distcompile.Coordinator.Claim.Best.{Claimed}
use distcompile.Coordinator.System.{tx_at, put_tx, add_build, World, reap_all, gives_up}
use distcompile.Coordinator.System.Builds.{IsInOrder, IsLevel, Progress, Progress-refl}
use distcompile.Coordinator.System.Reaps.{reap_rows-Keeps, looked_at-Keeps, left_open-Keeps}
use distcompile.Coordinator.System.Steps.{Keeps, heartbeat-Keeps, claim-Keeps, eligible-ready}

-- The tables in order: every build is, those that the coordinator is not behind with were looked at, and
-- no output in the cache is empty.
pub record IsSane (max_attempts : ℕ) (x : World) : Type 0 where
  pub builds : (b : ℕ) → b < x.db.next_build → IsInOrder max_attempts (x.db.builds b)
  pub level : (b : ℕ) → b < x.db.next_build → x.behind b ≡ false → IsLevel (x.db.builds b)
  pub filled : IsFilled x.db.cache

-- What a step does to the builds that there are, and that the tables are in order behind it.
pub record Advances (max_attempts : ℕ) (x y : World) : Type 0 where
  pub sane : IsSane max_attempts y
  pub grows : x.db.next_build ≤ y.db.next_build
  pub progress :
      (b : ℕ) → b < x.db.next_build → Progress max_attempts (x.db.builds b) (y.db.builds b)

module _ (m : ℕ) (x : World) (sane : IsSane m x) where
  -- A transaction on one build, and one on all of them.
  pub one_build :
      (b : ℕ) (build : Build)
      → (b < x.db.next_build → Keeps m (x.db.builds b) build)
      → (i : ℕ) → i < x.db.next_build
      → Keeps m (x.db.builds i) (update x.db.builds b build i)
  one_build b build kept i below = elim (Bool-cases (i == b)) [
    | inl same_build ↦ let same : i ≡ b = ground arith in rw (same_build, same) (kept (omega arith))
    | inr other ↦ rw other (Progress-refl m (x.db.builds i), sane.builds i below, λ honest. honest)
  ]

  pub old_builds :
      (db' : Db)
      → db'.next_build ≡ x.db.next_build
      → IsFilled db'.cache
      → ((i : ℕ) → i < x.db.next_build → Keeps m (x.db.builds i) (db'.builds i))
      → Advances m x (record x { db = db' })
  old_builds db' same filled kept = record {
    sane = record {
      builds = λ b h. (kept b (rw same at h)).1;
      level = λ b h level. (kept b (rw same at h)).2 (sane.level b (rw same at h) level);
      filled = filled;
    };
    grows = omega (arith, same);
    progress = λ b h. (kept b h).0;
  }

  -- One more build, behind the others.
  pub new_build-Advances :
      (s : Tx)
      → IsInOrder m s.build
      → IsLevel s.build
      → IsFilled s.cache
      → Advances m x
          (record { db = add_build x.db s; behind = update x.behind x.db.next_build false })
  new_build-Advances s o honest filled = record {
    sane = record {
      builds = λ b h. (each b h).0;
      level = λ b h level. (each b h).1 level;
      filled = filled;
    };
    grows = omega arith;
    progress = λ b h.
        let other : (b == x.db.next_build) ≡ false = ground arith in
        rw other (Progress-refl m (x.db.builds b));
  }
    where
      each :
          (b : ℕ)
          → b < suc x.db.next_build
          → let new = update x.db.builds x.db.next_build s.build b in
            IsInOrder m new × (update x.behind x.db.next_build false b ≡ false → IsLevel new)
      each b h = elim (Bool-cases (b == x.db.next_build)) [
        | inl last ↦ rw last (o, λ level. honest)
        | inr other ↦
            let below : b < x.db.next_build = ground arith in
            rw other (sane.builds b below, sane.level b below)
      ]

  pub reap-Advances :
      (now : ℕ)
      → Advances m x (record {
        db = reap_all m now x.db;
        behind = λ b. gives_up m now (x.db.builds b) || x.behind b;
      })
  unfolding reap_all
  reap-Advances now = record {
    sane = record {
      builds = λ b h. (reap_rows-Keeps m now (x.db.builds b) (sane.builds b h)).1;
      level = λ b h level.
          (reap_rows-Keeps m now (x.db.builds b) (sane.builds b h)).2 (ground arith)
            (sane.level b h (ground arith));
      filled = sane.filled;
    };
    grows = omega arith;
    progress = λ b h. (reap_rows-Keeps m now (x.db.builds b) (sane.builds b h)).0;
  }

  pub overlap-Advances :
      (b : ℕ) (s : Tx)
      → b < x.db.next_build
      → IsFilled s.cache
      → Keeps m (x.db.builds b) s.build
      → Advances m x (record {
        db =
            put_tx x.db b (record s { build = record (s.build) { state = (x.db.builds b).state } });
        behind = update x.behind b true;
      })
  overlap-Advances b s below filled kept = record {
    sane = record { builds = λ i h. (each i h).1; level = λ i h. (each i h).2; filled = filled };
    grows = omega arith;
    progress = λ i h. (each i h).0;
  }
    where
      each :
          (i : ℕ)
          → i < x.db.next_build
          → let new = update x.db.builds b (record (s.build) { state = (x.db.builds b).state }) i in
            Progress m (x.db.builds i) new
            × IsInOrder m new
            × (update x.behind b true i ≡ false → IsLevel new)
      each i h = elim (Bool-cases (i == b)) [
        | inl same_build ↦
            let same : i ≡ b = ground arith in
            let left =
              left_open-Keeps m (x.db.builds b) s.build kept.0 (sane.builds b below) kept.1 in
            rw (same_build, same) (left.0, left.1, λ level. absurd (cc level))
        | inr other ↦ rw other (Progress-refl m (x.db.builds i), sane.builds i h, sane.level i h)
      ]

  pub look-Advances :
      (b : ℕ)
      → b < x.db.next_build
      → Advances m x (record {
        db = put_tx x.db b (maybe_finish (tx_at x.db b));
        behind = update x.behind b false;
      })
  look-Advances b below = record {
    sane = record {
      builds = λ i h. (each i h).1;
      level = λ i h. (each i h).2;
      filled = subst IsFilled (sym (maybe_finish-cache (tx_at x.db b))) sane.filled;
    };
    grows = omega arith;
    progress = λ i h. (each i h).0;
  }
    where
      each :
          (i : ℕ)
          → i < x.db.next_build
          → let new = update x.db.builds b (maybe_finish (tx_at x.db b)).build i in
            Progress m (x.db.builds i) new
            × IsInOrder m new
            × (update x.behind b false i ≡ false → IsLevel new)
      each i h = elim (Bool-cases (i == b)) [
        | inl same_build ↦
            let same : i ≡ b = ground arith in
            let kept = looked_at-Keeps m (tx_at x.db b) (sane.builds b below) in
            rw (same_build, same)
              (
                kept.0,
                kept.1,
                λ level.
                    (maybe_finish-IsClosed (tx_at x.db b), maybe_finish-IsHonest (tx_at x.db b)),
              )
        | inr other ↦ rw other (Progress-refl m (x.db.builds i), sane.builds i h, sane.level i h)
      ]

  pub claim-Advances :
      (q : ClaimRequest) (lease_s now : ℕ) (locked : Uid → Bool) (u : Uid) (db' : Db)
      → Claimed q lease_s now locked x.db u db'
      → Advances m x (record x { db = db' })
  claim-Advances q lease_s now locked u db' c =
      let until = now + lease_s * 1000 in
      let row = row_at x.db u in
      let build = record (x.db.builds u.build) {
        task = update (x.db.builds u.build).task u.id (running_row q.worker until row);
      } in
      subst (λ z. Advances m x (record x { db = z })) (sym c.written)
        (old_builds (set_row x.db u (running_row q.worker until row)) refl sane.filled (
          one_build u.build build (λ below.
            claim-Keeps m until u.id q.worker (x.db.builds u.build)
              (eligible-ready q now row c.eligible) (sane.builds u.build below))))

pub beat-Advances :
    (m : ℕ) (x : World) (sane : IsSane m x) (worker : Text) (lease_s now : ℕ)
    → Advances m x (record x { db = heartbeat worker lease_s now x.db })
unfolding heartbeat
beat-Advances m x sane worker lease_s now =
    old_builds m x sane (heartbeat worker lease_s now x.db) refl sane.filled
      (λ b h. heartbeat-Keeps m (now + lease_s * 1000) worker (x.db.builds b) (sane.builds b h))
