-- ===== src/Coordinator/Workers/Numbered.antt =====
-- The rows of workers, and the partition that stands in them.
use distcompile.Prelude.{
  ℕ, suc, ◌+◌, ◌≤◌, ◌≡◌, refl, sym, ◌∙◌, inl, inr, true, none, some, List, [], ◌∷◌, ◌++◌, map, Text,
  arith, if◌then◌else◌, length, text_eq, text_eq→≡, Bool-cases,
}
use distcompile.Coordinator.Workers.{WorkerRow, WorkerInfo, is_known, renew, part_in}

-- The rows are numbered in the order of insertion.
abbrev pub IsNumbered : ℕ → List WorkerRow → Type 0
IsNumbered k [] = Unit {0}
IsNumbered k (r ∷ rows) = (r.part ≡ k) × IsNumbered (suc k) rows

pub IsNumbered-renew :
    (f : WorkerRow → WorkerRow) (k : ℕ) (rows : List WorkerRow)
    → ((r : WorkerRow) → (f r).part ≡ r.part)
    → IsNumbered k rows
    → IsNumbered k (map f rows)
IsNumbered-renew f k [] same h = tt
IsNumbered-renew f k (r ∷ rows) same h = (same r ∙ h.0, IsNumbered-renew f (suc k) rows same h.1)

pub IsNumbered-append :
    (k : ℕ) (rows : List WorkerRow) (r : WorkerRow)
    → IsNumbered k rows
    → r.part ≡ k + length rows
    → IsNumbered k (rows ++ (r ∷ []))
IsNumbered-append k [] r h e = (omega (arith, e), tt)
IsNumbered-append k (x ∷ rows) r h e =
    (h.0, IsNumbered-append (suc k) rows r h.1 (omega (arith, e)))

pub part_in-renew :
    (f : WorkerRow → WorkerRow) (w : Text) (rows : List WorkerRow)
    → ((r : WorkerRow) → ((f r).part ≡ r.part) × ((f r).id ≡ r.id))
    → part_in w (map f rows) ≡ part_in w rows
unfolding part_in
part_in-renew f w [] same = refl
part_in-renew f w (r ∷ rows) same = rw ((same r).0, (same r).1, part_in-renew f w rows same) refl

pub part_in-append :
    (w : Text) (rows : List WorkerRow) (r : WorkerRow)
    → part_in w (rows ++ (r ∷ []))
      ≡ (if is_known w rows then part_in w rows else if text_eq r.id w then some r.part else none)
unfolding part_in
part_in-append w [] r = refl
part_in-append w (x ∷ rows) r = elim (Bool-cases (text_eq x.id w)) [
  | inl here ↦ rw here refl
  | inr other ↦ rw other (part_in-append w rows r)
]

part_in-ge :
    (k : ℕ) (rows : List WorkerRow) (w : Text) (p : ℕ)
    → IsNumbered k rows
    → part_in w rows ≡ some p
    → k ≤ p
unfolding part_in
part_in-ge k [] w p h e = absurd (cc e)
part_in-ge k (r ∷ rows) w p h e = elim (Bool-cases (text_eq r.id w)) [
  | inl here ↦
      let found : some r.part ≡ some p = rw (here, part_in) at e in
      let same : r.part ≡ p = cc found in omega (arith, same, h.0)
  | inr other ↦ omega (arith, part_in-ge (suc k) rows w p h.1 (rw (other, part_in) at e))
]

-- Two workers of one partition are the same worker.
pub part_in-distinct :
    (k : ℕ) (rows : List WorkerRow) (a b : Text) (p : ℕ)
    → IsNumbered k rows
    → part_in a rows ≡ some p
    → part_in b rows ≡ some p
    → a ≡ b
unfolding part_in
part_in-distinct k [] a b p h e f = absurd (cc e)
part_in-distinct k (r ∷ rows) a b p h e f = elim (Bool-cases (text_eq r.id a)) [
  | inl first ↦ elim (Bool-cases (text_eq r.id b)) [
    | inl second ↦ sym (text_eq→≡ r.id a first) ∙ text_eq→≡ r.id b second
    | inr later ↦
        let found : some r.part ≡ some p = rw (first, part_in) at e in
        let same : r.part ≡ p = cc found in
        let above = part_in-ge (suc k) rows b p h.1 (rw (later, part_in) at f) in
        absurd (omega (arith, same, h.0, above))
  ]
  | inr after ↦ elim (Bool-cases (text_eq r.id b)) [
    | inl second ↦
        let found : some r.part ≡ some p = rw (second, part_in) at f in
        let same : r.part ≡ p = cc found in
        let above = part_in-ge (suc k) rows a p h.1 (rw (after, part_in) at e) in
        absurd (omega (arith, same, h.0, above))
    | inr later ↦
        part_in-distinct (suc k) rows a b p h.1 (rw (after, part_in) at e)
          (rw (later, part_in) at f)
  ]
]

pub known-part :
    (w : Text) (rows : List WorkerRow)
    → is_known w rows ≡ true
    → (p : ℕ) × (part_in w rows ≡ some p)
unfolding part_in
known-part w [] h = absurd (cc h)
known-part w (r ∷ rows) h = elim (Bool-cases (text_eq r.id w)) [
  | inl here ↦ (r.part, rw (here, part_in) refl)
  | inr other ↦ let (p, e) = known-part w rows (rw other at h) in (p, rw (other, part_in) e)
]

pub part-known :
    (w : Text) (rows : List WorkerRow) (p : ℕ) → part_in w rows ≡ some p → is_known w rows ≡ true
unfolding part_in
part-known w [] p e = absurd (cc e)
part-known w (r ∷ rows) p e = elim (Bool-cases (text_eq r.id w)) [
  | inl here ↦ rw here refl
  | inr other ↦ rw other (part-known w rows p (rw (other, part_in) at e))
]

pub renew-facts :
    (q : WorkerInfo) (now : ℕ) (r : WorkerRow)
    → ((renew q now r).part ≡ r.part) × ((renew q now r).id ≡ r.id)
renew-facts q now r = elim (Bool-cases (text_eq r.id q.id)) [
  | inl here ↦ rw (here, renew) (refl, refl)
  | inr other ↦ rw (other, renew) (refl, refl)
]
