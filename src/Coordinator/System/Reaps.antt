-- ===== src/Coordinator/System/Reaps.antt =====
-- What the statements of the reaper do to a build in order.
use distcompile.Prelude.{
  none, zero, suc, ◌<◌, ◌&&◌, leb, false, ℕ, ◌≡◌, refl, sym, ap, subst, inl, inr, true, arith,
  Bool-cases, ◌==◌,
}
use native.Mathlib.Decide.{dec_le}
use distcompile.Coordinator.Rows.{Task, Build, is_failed, is_open, is_running, running, State}
use distcompile.Coordinator.Finish.{Tx, maybe_finish}
use distcompile.Coordinator.Finish.Settled.{
  none_failed, Settled-rows, maybe_finish-rows, maybe_finish-Closes,
}
use distcompile.Coordinator.Lifecycle.{Move, stayed, gave_up, requeued}
use distcompile.Coordinator.Complete.Invariant.{nothing_owed}
use distcompile.Coordinator.Claim.{reap_row, reap_rows, is_expired, given_up}
use distcompile.Coordinator.Claim.Lease.{reap_row-states, reap_row-Reaped}
use distcompile.Coordinator.System.Builds.{
  IsInOrder, IsLevel, Progress, Progress-IsInOrder, IsAlike,
}
use distcompile.Coordinator.System.Steps.{rows-Progress, rows-IsClosed, rows-IsInOrder}

running_of : (s : State) → is_running s ≡ true → s ≡ running
running_of s h = ground arith

reap_row-attempts : (m now : ℕ) (x : Task) → (reap_row m now x).attempts ≡ x.attempts
unfolding reap_row
reap_row-attempts m now x = ground arith

reap_row-Move : (m now : ℕ) (x : Task) → Move m x (reap_row m now x)
reap_row-Move m now x =
    let r = reap_row-Reaped m now x in
    let same = reap_row-attempts m now x in
    elim (Bool-cases (is_expired now x)) [
      | inr going ↦ stayed (ap (λ z. z.state) (r.kept going)) (ap (λ z. z.attempts) (r.kept going))
      | inl expired ↦
          let was = running_of x.state (ground arith) in
          elim (dec_le m x.attempts) [
            | yes often ↦ gave_up (ap is_open was) (r.gave expired often).0 same
            | no seldom ↦
                requeued was (r.requeued expired (omega arith)).0 (omega (arith, same)) same
          ]
    ]

given_up-none :
    (m now n : ℕ) (task : ℕ → Task)
    → given_up m now n task ≡ 0
    → (i : ℕ) → i < n
    → (is_expired now (task i) && leb m (task i).attempts) ≡ false
unfolding given_up
given_up-none m now zero task e i below = absurd (omega arith)
given_up-none m now (suc n) task e i below = elim (Bool-cases (i == n)) [
  | inl last ↦ let same : i ≡ n = ground arith in rw same (ground arith)
  | inr other ↦ given_up-none m now n task (ground arith) i (ground arith)
]

-- A row fails in a round only when it is given up.
reap_row-unfailed :
    (m now : ℕ) (x : Task)
    → (is_expired now x && leb m x.attempts) ≡ false
    → is_failed (reap_row m now x).state ≡ true
    → is_failed x.state ≡ true
unfolding reap_row
reap_row-unfailed m now x kept bad = ground arith

module _ (m now : ℕ) (b : Build) where
  abbrev rows_behind : Build
  rows_behind = (reap_rows m now (record { build = b; cache = λ k. none })).build

  reaped_rows :
      (i : ℕ) → let x = b.task i in Move m x (reap_row m now x) × IsAlike x (reap_row m now x)
  reaped_rows i = (reap_row-Move m now (b.task i), reap_row-states m now (b.task i))

  -- The UPDATE keeps a build in order; it leaves a failed task in a running build only where it gave a
  -- task up.
  pub reap_rows-Keeps :
      IsInOrder m b
      → Progress m b rows_behind
        × IsInOrder m rows_behind
        × (given_up m now b.total b.task ≡ 0 → IsLevel b → IsLevel rows_behind)
  unfolding reap_rows
  reap_rows-Keeps o = (
    rows-Progress m b rows_behind refl refl refl reaped_rows,
    rows-IsInOrder m b rows_behind refl refl refl reaped_rows o,
    λ nobody level. (
      rows-IsClosed m b rows_behind refl refl refl reaped_rows level.0,
      λ a.
          none_failed b rows_behind refl
            (λ i h bad.
              reap_row-unfailed m now (b.task i) (given_up-none m now b.total b.task nobody i h)
                bad)
            (level.1 a),
    ),
  )

-- Looking at a build keeps it in order, and no running build has a failed task then.
pub looked_at-Keeps :
    (m : ℕ) (s : Tx)
    → IsInOrder m s.build
    → Progress m s.build (maybe_finish s).build × IsInOrder m (maybe_finish s).build
looked_at-Keeps m s o =
    let rows = maybe_finish-rows s in
    let b' = (maybe_finish s).build in
    let p : Progress m s.build b' = record {
      total = rows.0;
      edges = rows.1;
      moved = λ i. subst (λ f. Move m (s.build.task i) (f i)) (sym rows.2) (stayed refl refl);
      closes = maybe_finish-Closes s;
    } in
    (
      p,
      Progress-IsInOrder m s.build b' p o
          (Settled-rows s.build b' nothing_owed rows.0 rows.1 rows.2 o.settled),
    )

-- A completion that does not close the build, whatever it did to the rows.
pub left_open-Keeps :
    (m : ℕ) (b b' : Build)
    → Progress m b b'
    → IsInOrder m b
    → IsInOrder m b'
    → let c = record b' { state = b.state } in Progress m b c × IsInOrder m c
left_open-Keeps m b b' p o o' =
    let c = record b' { state = b.state } in
    let q : Progress m b c = record {
      total = p.total;
      edges = p.edges;
      moved = p.moved;
      closes = inl refl;
    } in
    (q, Progress-IsInOrder m b c q o (Settled-rows b' c nothing_owed refl refl refl o'.settled))
