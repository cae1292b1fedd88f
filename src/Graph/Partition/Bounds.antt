-- ===== src/Graph/Partition/Bounds.antt =====
-- The numbers of the parts that `partition` gives.
use distcompile.Prelude.{
  ℕ, zero, suc, ◌+◌, ◌≤◌, ◌<◌, List, [], ◌∷◌, arith, Option, Bool-cases, Option-cases, inl, inr,
  leb, ltb, if◌then◌else◌,
}
use distcompile.Graph.{GraphTask}
use distcompile.Graph.Partition.{
  min_element, Placement, place, nothing_placed, part_of, claims, unit_costs, by_cost, partition,
}

min_element-lt :
    (load : ℕ → ℕ) (n k p best : ℕ) → p + k ≤ n → best < n → min_element load k p best < n
unfolding min_element
min_element-lt load n zero p best h b = b
min_element-lt load n (suc k) p best h b =
    ground (arith, min_element-lt load n k (suc p) (if ltb (load p) (load best) then p else best))

place-lt :
    (parts : ℕ) (cost : ℕ → ℕ) (us : List ℕ) (s : Placement)
    → 0 < parts
    → ((u : ℕ) → s.unit_part u < parts)
    → (u : ℕ) → (place parts cost us s).unit_part u < parts
unfolding place
place-lt parts cost [] s h b = b
place-lt parts cost (u ∷ us) s h b =
    place-lt parts cost us _ h
      (λ v. ground (arith, b v, min_element-lt s.load parts parts 0 0 (omega arith) h))

part_of-lt :
    (unit : ℕ → Option ℕ) (s : Placement) (parts i : ℕ)
    → 0 < parts
    → ((u : ℕ) → s.unit_part u < parts)
    → part_of unit s i < parts
part_of-lt unit s parts i h b = elim (Option-cases (unit i)) [
  | inl e ↦ rw (e, part_of) h
  | inr (u, e) ↦ rw (e, part_of) (b u)
]

-- Every task gets a part below the number of parts, if there is at least one.
pub partition-lt : (t : List GraphTask) (parts i : ℕ) → 0 < parts → partition t parts i < parts
unfolding partition
partition-lt t parts i h =
    let c = claims t in
    let cost = unit_costs t 0 c.unit (λ u. 0) in
    let final = place parts cost (by_cost cost c.units 0) nothing_placed in
    let bounded = place-lt parts cost (by_cost cost c.units 0) nothing_placed h (λ u. h) in
    elim (Bool-cases (leb parts 1)) [
      | inl single ↦ rw single h
      | inr many ↦ rw many (part_of-lt c.unit final parts i h bounded)
    ]
