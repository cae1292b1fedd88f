-- ===== src/Coordinator/Workers/Partitions.antt =====
-- Which partition a worker has.
use distcompile.Prelude.{
  ℕ, suc, ◌⊎◌, ◌≤◌, ◌<◌, max, ◌≡◌, refl, sym, ap, subst, ◌∙◌, inl, inr, true, false, Option, none,
  some, List, [], ◌∷◌, Text, arith, length, text_eq, text_eq→≡, text_eq_refl, Bool-cases, All,
}
use native.Mathlib.Decide.{dec_le}
use distcompile.Prelude.Int.{ℤ, pos}
use distcompile.Coordinator.Workers.{
  WorkerRow, WorkerInfo, Roster, is_known, renew, new_worker, upsert, part_in, part_or_none,
  register_worker, partition_of, is_live, live_parts, live_partitions,
}
use distcompile.Coordinator.Workers.Numbered.{
  IsNumbered, IsNumbered-renew, IsNumbered-append, part_in-renew, part_in-append, part_in-distinct,
  known-part, part-known, renew-facts,
}

-- What the coordinator remembers of a worker is what the table says.
pub record IsRoster (s : Roster) : Type 0 where
  pub numbered : IsNumbered 0 s.rows
  pub remembered : (w : Text) (p : ℕ) → s.worker_part w ≡ some (pos p) → part_in w s.rows ≡ some p

module _ (q : WorkerInfo) (counted now : ℕ) (rows : List WorkerRow) where
  upsert-IsNumbered :
      (is_known q.id rows ≡ false → counted ≡ length rows)
      → IsNumbered 0 rows
      → IsNumbered 0 (upsert q counted now rows)
  unfolding upsert
  upsert-IsNumbered fresh_count h = elim (Bool-cases (is_known q.id rows)) [
    | inl known ↦
        rw (known, upsert) (IsNumbered-renew (renew q now) 0 rows (λ r. (renew-facts q now r).0) h)
    | inr fresh ↦
        rw (fresh, upsert)
          (IsNumbered-append 0 rows (new_worker q counted now) h (omega (arith, fresh_count fresh)))
  ]

  upsert-keeps :
      (w : Text) (p : ℕ) → part_in w rows ≡ some p → part_in w (upsert q counted now rows) ≡ some p
  unfolding upsert
  upsert-keeps w p e = elim (Bool-cases (is_known q.id rows)) [
    | inl known ↦ rw (known, upsert) (part_in-renew (renew q now) w rows (renew-facts q now) ∙ e)
    | inr fresh ↦
        let append = part_in-append w rows (new_worker q counted now) in
        rw (fresh, upsert) (append ∙ rw (part-known w rows p e) e)
  ]

  upsert-own : (p : ℕ) × (part_in q.id (upsert q counted now rows) ≡ some p)
  unfolding upsert
  upsert-own = elim (Bool-cases (is_known q.id rows)) [
    | inl known ↦
        let (p, e) = known-part q.id rows known in
        (p, rw (known, upsert) (part_in-renew (renew q now) q.id rows (renew-facts q now) ∙ e))
    | inr fresh ↦
        let append = part_in-append q.id rows (new_worker q counted now) in
        (counted, rw (fresh, upsert) (append ∙ rw (fresh, text_eq_refl q.id) refl))
  ]

-- What a registration leaves.
pub record Registered (q : WorkerInfo) (s s' : Roster) : Type 0 where
  pub roster : IsRoster s'
  pub keeps : (w : Text) (p : ℕ) → part_in w s.rows ≡ some p → part_in w s'.rows ≡ some p
  pub own : (p : ℕ) × (part_in q.id s'.rows ≡ some p) × ((partition_of q.id s').0 ≡ pos p)
  pub distinct :
      (a b : Text) (p : ℕ) → part_in a s'.rows ≡ some p → part_in b s'.rows ≡ some p → a ≡ b

pos-part : (o : Option ℕ) (p : ℕ) → some (part_or_none o) ≡ some (pos p) → o ≡ some p
pos-part none p e = absurd (cc e)
pos-part (some n) p e =
    let same : pos n ≡ pos p = cc e in let number : n ≡ p = cc same in ap some number

partition_of-remembered :
    (w : Text) (s : Roster) (p : ℤ) → s.worker_part w ≡ some p → (partition_of w s).0 ≡ p
unfolding partition_of
partition_of-remembered w s p e = rw (e, partition_of) refl

-- However a worker registers, for the first time or again, it has a partition then, which
-- `partition_of` gives it; it and every other worker keep the partition that they had; and no two
-- workers share one. This holds from a table that registrations made (its rows are numbered, and what
-- is remembered is in it), and leaves such a table, when the INSERT of a new worker counted all rows that
-- there are: when no other registration was committed while it ran.
pub register_worker-Registered :
    (q : WorkerInfo) (counted now : ℕ) (s : Roster)
    → (is_known q.id s.rows ≡ false → counted ≡ length s.rows)
    → IsRoster s
    → Registered q s (register_worker q counted now s)
unfolding register_worker
register_worker-Registered q counted now s alone roster =
    let rows = upsert q counted now s.rows in
    let numbered = upsert-IsNumbered q counted now s.rows alone roster.numbered in
    let (own, has) = upsert-own q counted now s.rows in
    record {
      roster = record {
        numbered = numbered;
        remembered = λ w p e. elim (Bool-cases (text_eq w q.id)) [
          | inl here ↦
              subst (λ v. part_in v rows ≡ some p) (sym (text_eq→≡ w q.id here))
                (pos-part (part_in q.id rows) p (rw here at e))
          | inr other ↦
              upsert-keeps q counted now s.rows w p (roster.remembered w p (rw other at e))
        ];
      };
      keeps = upsert-keeps q counted now s.rows;
      own = (
        own,
        has,
        partition_of-remembered q.id (register_worker q counted now s) (pos own)
            (rw (text_eq_refl q.id, has) refl),
      );
      distinct = λ a b p e f. part_in-distinct 0 rows a b p numbered e f;
    }

live_parts-le :
    (now n : ℕ) (rows : List WorkerRow)
    → live_parts now rows ≤ n
    → All (λ r. is_live now r ≡ true → r.part < n) rows
unfolding live_parts
live_parts-le now n [] h = tt
live_parts-le now n (r ∷ rows) h = elim (Bool-cases (is_live now r)) [
  | inl live ↦
      let both = rw (live, live_parts) at h in
      (λ l. omega (arith, both), live_parts-le now n rows (omega (arith, both)))
  | inr gone ↦ (λ l. absurd (cc (l, gone)), live_parts-le now n rows (rw (gone, live_parts) at h))
]

-- A live worker with the partition before the number.
abbrev pub IsLast : ℕ → ℕ → List WorkerRow → Type 0
IsLast now n [] = ⊥
IsLast now n (r ∷ rows) = ((is_live now r ≡ true) × (suc r.part ≡ n)) ⊎ IsLast now n rows

live_parts-attained :
    (now : ℕ) (rows : List WorkerRow)
    → (live_parts now rows ≡ 0) ⊎ IsLast now (live_parts now rows) rows
unfolding live_parts
live_parts-attained now [] = inl refl
live_parts-attained now (r ∷ rows) =
    let n = live_parts now rows in
    let whole = λ (k : ℕ). k ≡ 0 ⊎ IsLast now k (r ∷ rows) in
    let before = live_parts-attained now rows in
    elim (Bool-cases (is_live now r)) [
      | inr gone ↦
          let same : live_parts now (r ∷ rows) ≡ n = rw (gone, live_parts) refl in
          subst whole (sym same)
            (elim before [ inl none_live ↦ inl none_live | inr last ↦ inr (inr last) ])
      | inl live ↦
          let same : live_parts now (r ∷ rows) ≡ max (suc r.part) n = rw (live, live_parts) refl in
          subst whole (sym same) (elim (dec_le n (suc r.part)) [
            | yes low ↦ inr (inl (live, omega (arith, low)))
            | no high ↦
                let most : max (suc r.part) n ≡ n = omega (arith, high) in
                subst whole (sym most) (elim before [
                  | inl none_live ↦ absurd (omega (arith, high, none_live))
                  | inr last ↦ inr (inr last)
                ])
          ])
    ]

-- The number of partitions of a build that does not choose one is 1 when no worker was seen in the last
-- 30 seconds, and else one more than the greatest partition of a worker that was: above the partition
-- of each, and as near as that allows, whatever the number of these workers is.
pub live_partitions-lt :
    (now : ℕ) (s : Roster)
    → (1 ≤ live_partitions now s)
      × All (λ r. is_live now r ≡ true → r.part < live_partitions now s) s.rows
      × (live_partitions now s ≡ 1 ⊎ IsLast now (live_partitions now s) s.rows)
unfolding live_partitions
live_partitions-lt now s = (
  omega arith,
  live_parts-le now (max 1 (live_parts now s.rows)) s.rows (omega arith),
  elim (live_parts-attained now s.rows) [
    | inl none_live ↦ inl (omega (arith, none_live))
    | inr last ↦ elim (dec_le 1 (live_parts now s.rows)) [
      | no none_live ↦ inl (omega (arith, none_live))
      | yes some_live ↦
          let same : live_parts now s.rows ≡ max 1 (live_parts now s.rows) =
            omega (arith, some_live) in
          inr (subst (λ n. IsLast now n s.rows) same last)
    ]
  ],
)
