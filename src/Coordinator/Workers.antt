-- ===== src/Coordinator/Workers.antt =====
-- `register_worker`, the second statement of `heartbeat`, `live_partitions` and `partition_of` of
-- coordinator.cpp: the table workers of sql/schema.sql, and the map worker_part_ that the coordinator
-- keeps of it. Times are milliseconds.
pub mod Numbered
pub mod Partitions
use distcompile.Prelude.{
  ℕ, suc, ◌+◌, max, Bool, true, false, ◌||◌, Option, none, some, List, [], ◌∷◌, ◌++◌, map, Text,
  ltb, if◌then◌else◌, text_eq,
}
use distcompile.Prelude.Int.{ℤ, pos, negsuc}
use distcompile.Coordinator.Rows.{put_key}

pub record WorkerRow : Type 0 where
  pub id : Text
  pub toolchain : Text
  pub slots : ℕ
  pub part : ℕ
  pub last_seen : ℕ

pub record WorkerInfo : Type 0 where
  pub id : Text
  pub toolchain : Text
  pub slots : ℕ

-- The table, in the order of insertion, and the map.
pub record Roster : Type 0 where
  pub rows : List WorkerRow
  pub worker_part : Text → Option ℤ

abbrev pub is_known : Text → List WorkerRow → Bool
is_known w [] = false
is_known w (r ∷ rows) = text_eq r.id w || is_known w rows

-- `ON CONFLICT (id) DO UPDATE SET …`
abbrev pub renew : WorkerInfo → ℕ → WorkerRow → WorkerRow
renew q now r =
    if text_eq r.id q.id
    then record r { toolchain = q.toolchain; slots = q.slots; last_seen = now }
    else r

abbrev pub new_worker : WorkerInfo → ℕ → ℕ → WorkerRow
new_worker q part now = record {
  id = q.id;
  toolchain = q.toolchain;
  slots = q.slots;
  part = part;
  last_seen = now;
}

-- `INSERT INTO workers … (SELECT count(*) FROM workers)`; `counted` is what the subquery gives. That is the
-- number of rows as the statement began, and less than that of `rows` when another registration was
-- committed since.
unfoldable pub upsert : WorkerInfo → ℕ → ℕ → List WorkerRow → List WorkerRow
upsert q counted now rows =
    if is_known q.id rows then map (renew q now) rows else rows ++ (new_worker q counted now ∷ [])

-- `SELECT part FROM workers WHERE id = $1`
unfoldable pub part_in : Text → List WorkerRow → Option ℕ
part_in w [] = none
part_in w (r ∷ rows) = let rest = part_in w rows in if text_eq r.id w then some r.part else rest

abbrev pub part_or_none : Option ℕ → ℤ
part_or_none none = negsuc 0
part_or_none (some p) = pos p

unfoldable pub register_worker : WorkerInfo → ℕ → ℕ → Roster → Roster
unfolding upsert part_in
register_worker q counted now s =
    let rows = upsert q counted now s.rows in
    record {
      rows = rows;
      worker_part = put_key s.worker_part q.id (some (part_or_none (part_in q.id rows)));
    }

-- The UPDATE "seen" of `heartbeat`.
unfoldable pub seen : Text → ℕ → Roster → Roster
seen w now s = record s {
  rows = map (λ r. if text_eq r.id w then record r { last_seen = now } else r) s.rows;
}

unfoldable pub partition_of : Text → Roster → ℤ × Roster
unfolding part_in
partition_of w s = elim (s.worker_part w) [
  | some p ↦ (p, s)
  | none ↦
      let p = part_or_none (part_in w s.rows) in
      (p, record s { worker_part = put_key s.worker_part w (some p) })
]

-- `last_seen > now() - interval '30 seconds'`
abbrev pub is_live : ℕ → WorkerRow → Bool
is_live now r = ltb now (r.last_seen + 30000)

-- `coalesce(max(part) + 1, 1)`, where no row gives 0.
unfoldable pub live_parts : ℕ → List WorkerRow → ℕ
live_parts now [] = 0
live_parts now (r ∷ rows) =
    let rest = live_parts now rows in if is_live now r then max (suc r.part) rest else rest

unfoldable pub live_partitions : ℕ → Roster → ℕ
unfolding live_parts
live_partitions now s = max 1 (live_parts now s.rows)
