-- ===== src/Graph/Kahn.antt =====
-- The main loop of `topo_order`: what each round keeps, and its fuel.
use distcompile.Prelude.{
  ℕ, zero, suc, ◌+◌, ◌-◌, ◌≤◌, ◌<◌, ◌≡◌, refl, ap, ◌∙◌, List, [], ◌∷◌, ◌++◌, some, arith, ◌==◌, ltb,
  if◌then◌else◌, length, length-append, All,
}
use distcompile.Prelude.Counts.{count, count-append, sum_below-le, length-sum_below}
use distcompile.Graph.{update, sources, relax, kahn}

-- How many entries of a dependency list are not in `done`.
abbrev pub missing : List ℕ → List ℕ → ℕ
missing done [] = 0
missing done (d ∷ ds) = (if count d done == 0 then 1 else 0) + missing done ds

missing-nil : (ds : List ℕ) → missing [] ds ≡ length ds
missing-nil [] = refl
missing-nil (d ∷ ds) = ground (arith, missing-nil ds)

missing-cons :
    (v : ℕ) (done ds : List ℕ)
    → count v done ≡ 0
    → missing (v ∷ done) ds + count v ds ≡ missing done ds
missing-cons v done [] h = refl
missing-cons v done (d ∷ ds) h = ground (arith, missing-cons v done ds h)

-- Decrementing along a list: every count falls by the mentions, and what reaches 0 is pushed once.
relax-counts :
    (ss : List ℕ) (indeg : ℕ → ℕ)
    → ((s : ℕ) → count s ss ≤ indeg s)
    → (s : ℕ)
    → ((relax ss indeg).0 s + count s ss ≡ indeg s)
      × (count s (relax ss indeg).1
          ≡ (if indeg s == 0 then 0 else if (relax ss indeg).0 s == 0 then 1 else 0))
unfolding relax
relax-counts [] indeg h s = ground arith
relax-counts (x ∷ ss) indeg h s =
    ground
      (arith, h s, h x, relax-counts ss (update indeg x (indeg x - 1)) (λ j. ground (arith, h j)) s)

-- Every index from `i` on that waits on nothing, once.
sources-count :
    (k i : ℕ) (indeg : ℕ → ℕ) (s : ℕ)
    → count s (sources k i indeg)
      ≡ (if ltb s i then 0 else if ltb s (i + k) then (if indeg s == 0 then 1 else 0) else 0)
unfolding sources
sources-count zero i indeg s = ground arith
sources-count (suc k) i indeg s = ground (arith, sources-count k (suc i) indeg s)

missing-zero : (done ds : List ℕ) → missing done ds ≡ 0 → All (λ d. 0 < count d done) ds
missing-zero done [] h = tt
missing-zero done (d ∷ ds) h = (ground arith, missing-zero done ds (ground arith))

pub missing-of_All : (done ds : List ℕ) → All (λ d. 0 < count d done) ds → missing done ds ≡ 0
missing-of_All done [] h = refl
missing-of_All done (d ∷ ds) h = ground (arith, missing-of_All done ds h.1)

-- Every task stands behind all of its dependencies; `seen` holds what stands before the list.
abbrev pub IsOrdered : (ℕ → List ℕ) → List ℕ → List ℕ → Type 0
IsOrdered deps seen [] = Unit {0}
IsOrdered deps seen (v ∷ l) = All (λ d. 0 < count d seen) (deps v) × IsOrdered deps (v ∷ seen) l

abbrev pub push_all : List ℕ → List ℕ → List ℕ
push_all [] done = done
push_all (v ∷ l) done = push_all l (v ∷ done)

pub count-push_all :
    (a : ℕ) (l done : List ℕ) → count a (push_all l done) ≡ count a l + count a done
count-push_all a [] done = omega arith
count-push_all a (v ∷ l) done = omega (arith, count-push_all a l (v ∷ done))

module _ (n : ℕ) (deps : ℕ → List ℕ) where
  -- Each count is what is still missing, and what misses nothing was pushed exactly once.
  pub record Inv (done pending : List ℕ) (indeg : ℕ → ℕ) : Type 0 where
    pub waits : (i : ℕ) → indeg i ≡ missing done (deps i)
    pub placed :
        (i : ℕ)
        → count i done + count i pending ≡ (if ltb i n then (if indeg i == 0 then 1 else 0) else 0)

  Inv-length :
      {done pending : List ℕ} {indeg : ℕ → ℕ}
      → Inv done pending indeg
      → length done + length pending ≤ n
  Inv-length {done} {pending} {indeg} v = omega (
    arith,
    length-append done pending,
    length-sum_below n (done ++ pending)
        (λ a le. ground (arith, v.placed a, count-append a done pending)),
    sum_below-le n (λ a. count a (done ++ pending))
        (λ a. ground (arith, v.placed a, count-append a done pending)),
  )

  pub record Ended (done order : List ℕ) : Type 0 where
    pub ordered : IsOrdered deps done order
    pub last : ℕ → ℕ
    pub final : Inv (push_all order done) [] last

  -- The state in which the loop starts.
  pub sources-Inv :
      (indeg : ℕ → ℕ) → ((i : ℕ) → indeg i ≡ length (deps i)) → Inv [] (sources n 0 indeg) indeg
  sources-Inv indeg h = record {
    waits = λ i. omega (arith, h i, missing-nil (deps i));
    placed = λ i. ground (arith, sources-count n 0 indeg i);
  }

  module _ (succ : ℕ → List ℕ) (edges : (v i : ℕ) → count i (succ v) ≡ count v (deps i))
      (bound : (i : ℕ) → n ≤ i → deps i ≡ []) where
    Inv-step :
        (v : ℕ) (done rest : List ℕ) (indeg : ℕ → ℕ)
        → Inv done (v ∷ rest) indeg
        → Inv (v ∷ done) (rest ++ (relax (succ v) indeg).1) (relax (succ v) indeg).0
    Inv-step v done rest indeg inv = record {
      waits = λ i.
          omega (arith, (after i).0, missing-cons v done (deps i) fresh, edges v i, inv.waits i);
      placed = placed_after;
    }
      where
        fresh : count v done ≡ 0
        fresh = ground (arith, inv.placed v)

        enough : (s : ℕ) → count s (succ v) ≤ indeg s
        enough s = omega (arith, missing-cons v done (deps s) fresh, edges v s, inv.waits s)

        after :
            (s : ℕ)
            → ((relax (succ v) indeg).0 s + count s (succ v) ≡ indeg s)
              × (count s (relax (succ v) indeg).1
                  ≡ (if indeg s == 0 then 0 else if (relax (succ v) indeg).0 s == 0 then 1 else 0))
        after s = relax-counts (succ v) indeg enough s

        outside : (i : ℕ) → n ≤ i → indeg i ≡ 0
        outside i le = inv.waits i ∙ ap (missing done) (bound i le)

        placed_after :
            (i : ℕ)
            → count i (v ∷ done) + count i (rest ++ (relax (succ v) indeg).1)
              ≡ (if ltb i n then (if (relax (succ v) indeg).0 i == 0 then 1 else 0) else 0)
        placed_after i =
            ground (
              arith,
              inv.placed i,
              after i,
              outside i,
              count-append i rest (relax (succ v) indeg).1,
            )

    -- With a round left for each task the loop ends, and what it returns is the rest of the order.
    pub kahn-Ended :
        (fuel : ℕ) (done pending : List ℕ) (indeg : ℕ → ℕ)
        → Inv done pending indeg
        → n ≤ length done + fuel
        → (order : List ℕ) × (kahn fuel succ pending indeg ≡ some order) × Ended done order
    unfolding kahn
    kahn-Ended zero done [] indeg inv h =
        ([], refl, record { ordered = tt; last = indeg; final = inv })
    kahn-Ended zero done (v ∷ rest) indeg inv h = absurd (omega (arith, Inv-length inv))
    kahn-Ended (suc fuel) done [] indeg inv h =
        ([], refl, record { ordered = tt; last = indeg; final = inv })
    kahn-Ended (suc fuel) done (v ∷ rest) indeg inv h =
        let (order, runs, ended) =
          kahn-Ended fuel (v ∷ done) (rest ++ (relax (succ v) indeg).1) (relax (succ v) indeg).0
            (Inv-step v done rest indeg inv) (omega arith) in
        (
          v ∷ order,
          rw runs,
          record {
            ordered = (
              missing-zero done (deps v) (ground (arith, inv.waits v, inv.placed v)),
              ended.ordered,
            );
            last = ended.last;
            final = ended.final;
          },
        )
