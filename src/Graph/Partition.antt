-- ===== src/Graph/Partition.antt =====
-- `partition` of graph.cpp: units that stay together, then the biggest unit to the lightest part.
pub mod Bounds
pub mod Locality
use distcompile.Prelude.{
  ℕ, zero, suc, ◌+◌, max, Bool, true, false, ◌&&◌, Option, none, some, List, [], ◌∷◌, ltb, leb,
  ◌==◌, if◌then◌else◌, length, get_elem?,
}
use distcompile.Prelude.Int.{ℤ, pos_part}
use distcompile.Graph.{GraphTask, update}

-- enum Kind
abbrev pub compile : ℕ
compile = 0

abbrev pub archive : ℕ
archive = 1

abbrev pub link : ℕ
link = 2

-- `unit` holds -1 (here `none`) or a unit's number; `units` is the next number.
pub record Claims : Type 0 where
  pub unit : ℕ → Option ℕ
  pub units : ℕ

abbrev pub is_free : Option ℕ → Bool
is_free none = true
is_free (some u) = false

-- `t[d].kind == kind`
abbrev pub has_kind : List GraphTask → ℕ → ℕ → Bool
has_kind t kind d = elim (get_elem? t d) [ none ↦ false | some x ↦ x.kind == kind ]

-- `if (t[d].kind == kCompile && unit[d] < 0) unit[d] = units` for each dependency.
unfoldable pub claim_deps : List GraphTask → ℕ → List ℤ → (ℕ → Option ℕ) → ℕ → Option ℕ
claim_deps t u [] unit = unit
claim_deps t u (d ∷ ds) unit =
    let j = pos_part d in
    claim_deps t u ds
      (if has_kind t compile j && is_free (unit j) then update unit j (some u) else unit)

unfoldable pub claim_task : List GraphTask → ℕ → ℕ → Claims → Claims
unfolding claim_deps
claim_task t kind i c = elim (get_elem? t i) [
  | none ↦ c
  | some x ↦
      if x.kind == kind && is_free (c.unit i)
      then record {
        unit = claim_deps t c.units x.deps (update c.unit i (some c.units));
        units = c.units + 1;
      }
      else c
]

-- The lambda `claim`, from index `i` on, `k` rounds.
unfoldable pub claim : List GraphTask → ℕ → ℕ → ℕ → Claims → Claims
unfolding claim_task
claim t kind zero i c = c
claim t kind (suc k) i c = claim t kind k (suc i) (claim_task t kind i c)

-- `if (unit[i] < 0) unit[i] = units++`
unfoldable pub claim_rest : ℕ → ℕ → Claims → Claims
claim_rest zero i c = c
claim_rest (suc k) i c = claim_rest k (suc i) (
    if is_free (c.unit i)
    then record { unit = update c.unit i (some c.units); units = c.units + 1 }
    else c)

unfoldable pub claims : List GraphTask → Claims
unfolding claim claim_rest
claims t =
    let n = length t in
    let start : Claims = record { unit = λ i. none; units = 0 } in
    claim_rest n 0 (claim t link n 0 (claim t archive n 0 start))

-- `cost[unit[i]] += std::max<int64_t>(1, t[i].cost)`
unfoldable pub unit_costs : List GraphTask → ℕ → (ℕ → Option ℕ) → (ℕ → ℕ) → ℕ → ℕ
unit_costs [] i unit cost = cost
unit_costs (t ∷ ts) i unit cost = elim (unit i) [
  | none ↦ unit_costs ts (suc i) unit cost
  | some u ↦ unit_costs ts (suc i) unit (update cost u (cost u + max 1 (pos_part t.cost)))
]

-- `std::stable_sort` of the units by falling cost.
unfoldable pub insert_unit : (ℕ → ℕ) → ℕ → List ℕ → List ℕ
insert_unit cost u [] = u ∷ []
insert_unit cost u (v ∷ l) =
    let rest = v ∷ insert_unit cost u l in if ltb (cost u) (cost v) then rest else u ∷ v ∷ l

unfoldable pub by_cost : (ℕ → ℕ) → ℕ → ℕ → List ℕ
unfolding insert_unit
by_cost cost zero u = []
by_cost cost (suc k) u = insert_unit cost u (by_cost cost k (suc u))

-- `std::min_element`: the first of the least loads.
unfoldable pub min_element : (ℕ → ℕ) → ℕ → ℕ → ℕ → ℕ
min_element load zero p best = best
min_element load (suc k) p best =
    min_element load k (suc p) (if ltb (load p) (load best) then p else best)

pub record Placement : Type 0 where
  pub load : ℕ → ℕ
  pub unit_part : ℕ → ℕ

-- The loop over `by_cost`.
unfoldable pub place : ℕ → (ℕ → ℕ) → List ℕ → Placement → Placement
unfolding min_element
place parts cost [] s = s
place parts cost (u ∷ us) s =
    let p = min_element s.load parts 0 0 in
    place parts cost us
      (record { load = update s.load p (s.load p + cost u); unit_part = update s.unit_part u p })

abbrev pub part_of : (ℕ → Option ℕ) → Placement → ℕ → ℕ
part_of unit s i = elim (unit i) [ none ↦ 0 | some u ↦ s.unit_part u ]

abbrev pub nothing_placed : Placement
nothing_placed = record { load = λ p. 0; unit_part = λ u. 0 }

unfoldable pub partition : List GraphTask → ℕ → ℕ → ℕ
unfolding claims unit_costs by_cost place
partition t parts i =
    if leb parts 1
    then 0
    else let c = claims t in
      let cost = unit_costs t 0 c.unit (λ u. 0) in
      part_of c.unit (place parts cost (by_cost cost c.units 0) nothing_placed) i
